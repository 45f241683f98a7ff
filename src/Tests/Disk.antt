-- ===== src/Tests/Disk.antt =====
-- The durable store on a directory in memory: a record, its refusal, and a restart.
use keylix_community.Prelude.{◌≡◌, ◌≢◌, none, codes, refl, List, [], ◌∷◌, ok, err, pos, arith}
use keylix_community.Dpop.Ports.{ReplayKey, fresh, replay}
use keylix_community.Dpop.State.Contract.{ReplayContract}
use keylix_community.Dpop.Errors.{port_error}
use keylix_community.Dpop.Request.Authority.{decimal, decimal_value}
use keylix_community.Verifier.Directory.{
  dir_metadata, dir_open_file, dir_new_file, dir_remove_file, dir_hard_link, list_names,
}
use keylix_community.Verifier.Replay.Names.{
  name_for, hex, hex_digit, is_pending_name, strip_newline, parse_expiry, integer_text, expiry_text,
}
use keylix_community.Verifier.Replay.{
  check_and_record, open_store, file_store, acquire_instance_lock, cleanup_startup_pending,
  cleanup_all_pending, cleanup_pending, record_key, round, cleanup_and_count, count_names,
  count_name, count_record, read_expiry, is_recorded, settle, begin_record, pending_name, create,
  publish, conclude, validate_instance_lock,
}
use keylix_community.Verifier.Replay.Contract.{AnyDisk, FileHolds, file_store-ReplayContract}
use keylix_community.Verifier.Replay.Restart.{
  Event, check, start, happen_all, refused_after_restarts,
}
use keylix_community.Verifier.Directory.{other}
use keylix_community.Verifier.Directory.Trust.{
  normalized_absolute_components, read_components, validate_directory, validate_leaf_metadata,
}
use keylix_community.Verifier.Directory.Trust.Opening.{
  SecureDir, open_service_owned, open_absolute_directory, walk, chosen_owner,
  probe_directory_owner_uid, random_probe_name, validate_directory_chain, validate_service_leaf,
}
use keylix_community.Verifier.Directory.Trust.Laws.{IsServiceOwned, open_service_owned_iff}
use keylix_community.Samples.Tree.{Place, keylix, tree, path_below}
use keylix_community.Samples.Disk.{
  inode_bound, without, written, Disk, directory, file_at, directory-IsLawful,
}

abbrev key_a : ReplayKey
key_a = record {
  bytes =
      1 ∷ 2 ∷ 3 ∷ 4 ∷ 5 ∷ 6 ∷ 7 ∷ 8 ∷ 9 ∷ 10 ∷ 11 ∷ 12 ∷ 13 ∷ 14 ∷ 15 ∷ 16 ∷ 17 ∷ 18 ∷ 19 ∷ 20 ∷ 21
      ∷ 22 ∷ 23 ∷ 24 ∷ 25 ∷ 26 ∷ 27 ∷ 28 ∷ 29 ∷ 30 ∷ 31 ∷ 32 ∷ [];
}

abbrev key_b : ReplayKey
key_b = record {
  bytes =
      101 ∷ 2 ∷ 3 ∷ 4 ∷ 5 ∷ 6 ∷ 7 ∷ 8 ∷ 9 ∷ 10 ∷ 11 ∷ 12 ∷ 13 ∷ 14 ∷ 15 ∷ 16 ∷ 17 ∷ 18 ∷ 19 ∷ 20
      ∷ 21 ∷ 22 ∷ 23 ∷ 24 ∷ 25 ∷ 26 ∷ 27 ∷ 28 ∷ 29 ∷ 30 ∷ 31 ∷ 32 ∷ [];
}

abbrev opened : Disk
opened = (open_store directory 4 []).1

abbrev stored : Disk
stored = (check_and_record directory 4 (ok (pos 100)) key_a (pos 200) opened).1

accepted : (check_and_record directory 4 (ok (pos 100)) key_a (pos 200) opened).0 ≡ ok fresh
unfolding check_and_record open_store acquire_instance_lock cleanup_startup_pending
    cleanup_all_pending record_key round cleanup_and_count count_names count_name count_record
    read_expiry is_recorded settle begin_record pending_name create publish conclude
    validate_instance_lock dir_metadata dir_open_file dir_new_file dir_remove_file dir_hard_link
    list_names name_for hex hex_digit is_pending_name strip_newline parse_expiry integer_text
    expiry_text decimal decimal_value file_at inode_bound without written cleanup_pending
accepted = refl

refused :
    (check_and_record directory 4
      (ok (pos 200))
      key_a
      (pos 200)
      (open_store directory 4 stored).1).0
    ≡ ok replay
unfolding check_and_record open_store acquire_instance_lock cleanup_startup_pending
    cleanup_all_pending record_key round cleanup_and_count count_names count_name count_record
    read_expiry is_recorded settle begin_record pending_name create publish conclude
    validate_instance_lock dir_metadata dir_open_file dir_new_file dir_remove_file dir_hard_link
    list_names name_for hex hex_digit is_pending_name strip_newline parse_expiry integer_text
    expiry_text decimal decimal_value file_at inode_bound without written cleanup_pending
refused = refl

other_key : (check_and_record directory 4 (ok (pos 100)) key_b (pos 200) stored).0 ≡ ok fresh
unfolding check_and_record open_store acquire_instance_lock cleanup_startup_pending
    cleanup_all_pending record_key round cleanup_and_count count_names count_name count_record
    read_expiry is_recorded settle begin_record pending_name create publish conclude
    validate_instance_lock dir_metadata dir_open_file dir_new_file dir_remove_file dir_hard_link
    list_names name_for hex hex_digit is_pending_name strip_newline parse_expiry integer_text
    expiry_text decimal decimal_value file_at inode_bound without written cleanup_pending
other_key = refl

full : (check_and_record directory 1 (ok (pos 100)) key_b (pos 200) stored).0 ≡ err port_error
unfolding check_and_record open_store acquire_instance_lock cleanup_startup_pending
    cleanup_all_pending record_key round cleanup_and_count count_names count_name count_record
    read_expiry is_recorded settle begin_record pending_name create publish conclude
    validate_instance_lock dir_metadata dir_open_file dir_new_file dir_remove_file dir_hard_link
    list_names name_for hex hex_digit is_pending_name strip_newline parse_expiry integer_text
    expiry_text decimal decimal_value file_at inode_bound without written cleanup_pending
full = refl

expired : (check_and_record directory 1 (ok (pos 201)) key_b (pos 300) stored).0 ≡ ok fresh
unfolding check_and_record open_store acquire_instance_lock cleanup_startup_pending
    cleanup_all_pending record_key round cleanup_and_count count_names count_name count_record
    read_expiry is_recorded settle begin_record pending_name create publish conclude
    validate_instance_lock dir_metadata dir_open_file dir_new_file dir_remove_file dir_hard_link
    list_names name_for hex hex_digit is_pending_name strip_newline parse_expiry integer_text
    expiry_text decimal decimal_value file_at inode_bound without written cleanup_pending
expired = refl

file_store-ReplayContract_example :
    ReplayContract
      (file_store directory 4)
      (AnyDisk directory file_at)
      (FileHolds directory file_at)
file_store-ReplayContract_example = file_store-ReplayContract directory-IsLawful 4

abbrev between : List Event
between = check 4 (record { reading = ok (pos 150); key = key_b; expiry = pos 180 }) ∷ start 8 ∷ []

refused_after_restarts_example :
    (check_and_record directory 8
      (ok (pos 190))
      key_a
      (pos 200)
      (happen_all directory between stored)).0
    ≢ ok fresh
refused_after_restarts_example =
    refused_after_restarts directory-IsLawful (pos 100) 4 8 key_a (pos 200) (pos 200) opened between
      (ok (pos 190)) accepted (omega arith, tt) (omega arith) (omega arith)

abbrev admitted : SecureDir Place
admitted = record { dir = keylix; owner_uid = 7 }

admitted_below_var : open_service_owned tree (path_below (codes "var")) none [] ≡ (ok admitted, [])
unfolding open_service_owned open_absolute_directory normalized_absolute_components read_components
    walk chosen_owner probe_directory_owner_uid random_probe_name validate_directory_chain
    validate_directory validate_service_leaf validate_leaf_metadata
admitted_below_var = refl

-- A directory on the way that others may write is refused.
refused_below_tmp : (open_service_owned tree (path_below (codes "tmp")) none []).0 ≡ err other
unfolding open_service_owned open_absolute_directory normalized_absolute_components read_components
    walk chosen_owner probe_directory_owner_uid random_probe_name validate_directory_chain
    validate_directory validate_service_leaf validate_leaf_metadata
refused_below_tmp = refl

open_service_owned_iff_example : IsServiceOwned tree (path_below (codes "var")) none [] admitted []
open_service_owned_iff_example =
    (open_service_owned_iff tree (path_below (codes "var")) none [] admitted []).0
      admitted_below_var

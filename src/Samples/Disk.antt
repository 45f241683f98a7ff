-- ===== src/Samples/Disk.antt =====
-- A directory in memory for the tests: names with their files, and operations that never fail but for
-- the reasons that the laws speak of.
use keylix_community.Prelude.{
  ℕ, suc, ◌+◌, ◌≤◌, ◌≡◌, ◌≢◌, refl, ◌∙◌, Bool, true, false, List, [], ◌∷◌, ◌++◌, map, Option, none,
  some, Bytes, Result, ok, err, arith, if◌then◌else◌, ◌==◌, bytes_eq, bytes_eq_iff, bytes_eq_refl,
  take,
}
use keylix_community.Verifier.Directory.{IoError, not_found, already_exists, Stat, Directory}
use keylix_community.Verifier.Directory.Laws.{File, stat_of, IsLawfulDirectory}
use keylix_community.Samples.Host.{repeat}

abbrev pub Disk : Type 0
Disk = List (Bytes × File)

unfoldable pub file_at : Disk → Bytes → Option File
file_at [] name = none
file_at ((n, f) ∷ disk) name = if bytes_eq n name then some f else file_at disk name

-- Larger than every inode.
unfoldable pub inode_bound : Disk → ℕ
inode_bound [] = 0
inode_bound ((n, f) ∷ disk) = suc (f.inode + inode_bound disk)

unfoldable pub without : Bytes → Disk → Disk
without name [] = []
without name ((n, f) ∷ disk) =
    let rest = without name disk in if bytes_eq n name then rest else (n, f) ∷ rest

abbrev append_to : ℕ → Bytes → File → File
append_to inode text f = if f.inode == inode then record f { bytes = f.bytes ++ text } else f

unfoldable pub written : ℕ → Bytes → Disk → Disk
written inode text [] = []
written inode text ((n, f) ∷ disk) = (n, append_to inode text f) ∷ written inode text disk

abbrev stat_found : Option File → Result IoError Stat
stat_found none = err not_found
stat_found (some f) = ok (stat_of f)

abbrev text_found : ℕ → Option File → Result IoError Bytes
text_found k none = err not_found
text_found k (some f) = ok (take k f.bytes)

abbrev new_at : Bytes → Disk → Option File → Result IoError (Unit {0}) × Disk
new_at name disk (some f) = (err already_exists, disk)
new_at name disk none = (
  ok tt,
  (name, record { inode = inode_bound disk; is_regular = true; uid = 7; mode = 384; bytes = [] })
      ∷ disk,
)

abbrev write_to : Bytes → Disk → Option File → Result IoError (Unit {0}) × Disk
write_to text disk none = (err not_found, disk)
write_to text disk (some f) = (ok tt, written f.inode text disk)

abbrev link_to : Bytes → Disk → Option File → Option File → Result IoError (Unit {0}) × Disk
link_to new disk (some f) there = (err already_exists, disk)
link_to new disk none none = (err not_found, disk)
link_to new disk none (some f) = (ok tt, (new, f) ∷ disk)

abbrev pub directory : Directory Disk
directory = record {
  owner_uid = 7;
  list_dir = λ s. (ok (map (λ e. e.0) s), s);
  metadata = λ n s. (stat_found (file_at s n), s);
  open_file = λ n s. (stat_found (file_at s n), s);
  read_text = λ n k s. (text_found k (file_at s n), s);
  new_file = λ n s. new_at n s (file_at s n);
  write_all = λ n text s. write_to text s (file_at s n);
  sync_file = λ n s. (ok tt, s);
  try_lock = λ n s. (ok tt, s);
  hard_link = λ a b s. link_to b s (file_at s b) (file_at s a);
  remove_file = λ n s. (ok tt, without n s);
  sync_all = λ s. (ok tt, s);
  fill_random = λ k s. (ok (repeat k 171), s);
  is_text = λ n. true;
  is_single_component = λ n. true;
}

file_at-bound :
    (s : Disk) (m : Bytes) (g : File) → file_at s m ≡ some g → suc g.inode ≤ inode_bound s
unfolding file_at inode_bound
file_at-bound [] m g h = ground (arith, h)
file_at-bound ((n, f) ∷ s) m g h = ground (arith, h, file_at-bound s m g)

file_at-without :
    (name : Bytes) (s : Disk) (m : Bytes) → m ≢ name → file_at (without name s) m ≡ file_at s m
unfolding file_at without
file_at-without name [] m ne = refl
file_at-without name ((n, f) ∷ s) m ne =
    ground (arith, bytes_eq_iff n name, bytes_eq_iff n m, file_at-without name s m ne, ne)

abbrev map_file : (File → File) → Option File → Option File
map_file h none = none
map_file h (some f) = some (h f)

if_map :
    (h : File → File) (test : Bool) (f : File) (a b : Option File)
    → a ≡ map_file h b
    → (if test then some (h f) else a) ≡ map_file h (if test then some f else b)
if_map h true f a b same = refl
if_map h false f a b same = same

file_at-written :
    (inode : ℕ) (text : Bytes) (s : Disk) (m : Bytes)
    → file_at (written inode text s) m ≡ map_file (append_to inode text) (file_at s m)
unfolding file_at written
file_at-written inode text [] m = refl
file_at-written inode text ((n, f) ∷ s) m =
    if_map (append_to inode text) (bytes_eq n m) f _ _ (file_at-written inode text s m)

added-keeps :
    (n : Bytes) (f : File) (s : Disk) (m : Bytes) (g : File)
    → file_at s n ≡ none
    → file_at s m ≡ some g
    → file_at ((n, f) ∷ s) m ≡ some g
unfolding file_at
added-keeps n f s m g free h = ground (arith, (bytes_eq_iff n m).0, free, h)

added-there : (n : Bytes) (f : File) (s : Disk) → file_at ((n, f) ∷ s) n ≡ some f
unfolding file_at
added-there n f s = rw (bytes_eq_refl n) refl

new-keeps :
    (n : Bytes) (s : Disk) (o : Option File)
    → file_at s n ≡ o
    → (m : Bytes) (g : File) → file_at s m ≡ some g
    → file_at (new_at n s o).1 m ≡ some g
new-keeps n s none free m g h = added-keeps n _ s m g free h
new-keeps n s (some f) there m g h = h

new-ok :
    (n : Bytes) (s : Disk) (o : Option File)
    → file_at s n ≡ o
    → (new_at n s o).0 ≡ ok tt
    → (o ≡ none)
      × (f : File) × (file_at (new_at n s o).1 n ≡ some f)
      × (f.bytes ≡ [])
      × ((m : Bytes) (g : File) → file_at s m ≡ some g → g.inode ≢ f.inode)
new-ok n s none free h =
    (refl, _, added-there n _ s, refl, λ m g at same. omega (arith, file_at-bound s m g at, same))
new-ok n s (some f) there h = ground (arith, h)

write-keeps :
    (text : Bytes) (s : Disk) (o : Option File) (f : File) (m : Bytes) (g : File)
    → o ≡ some f
    → file_at s m ≡ some g
    → g.inode ≢ f.inode
    → file_at (write_to text s o).1 m ≡ some g
write-keeps text s none f m g at h ne = ground (arith, at)
write-keeps text s (some f') f m g at h ne =
    file_at-written f'.inode text s m ∙ rw h (ground (arith, at, ne))

write-ok :
    (n text : Bytes) (s : Disk) (o : Option File) (f : File)
    → file_at s n ≡ o
    → o ≡ some f
    → file_at (write_to text s o).1 n ≡ some (record f { bytes = f.bytes ++ text })
write-ok n text s none f at same = ground (arith, same)
write-ok n text s (some f') f at same =
    file_at-written f'.inode text s n ∙ rw at (ground (arith, same))

link-keeps :
    (b : Bytes) (s : Disk) (there from : Option File)
    → file_at s b ≡ there
    → (m : Bytes) (g : File) → file_at s m ≡ some g
    → file_at (link_to b s there from).1 m ≡ some g
link-keeps b s (some f) from at m g h = h
link-keeps b s none none at m g h = h
link-keeps b s none (some f) at m g h = added-keeps b f s m g at h

link-ok :
    (b : Bytes) (s : Disk) (there from : Option File)
    → (link_to b s there from).0 ≡ ok tt
    → (there ≡ none)
      × (f : File) × (from ≡ some f)
      × (file_at (link_to b s there from).1 b ≡ some f)
link-ok b s (some f) from h = ground (arith, h)
link-ok b s none none h = ground (arith, h)
link-ok b s none (some f) h = (refl, f, refl, added-there b f s)

metadata-ok :
    (o : Option File) (st : Stat)
    → stat_found o ≡ ok st
    → (f : File) × (o ≡ some f) × (st ≡ stat_of f)
metadata-ok none st h = ground (arith, h)
metadata-ok (some f) st h = (f, refl, ground (arith, h))

metadata-absent : (o : Option File) → stat_found o ≡ err not_found → o ≡ none
metadata-absent none h = refl
metadata-absent (some f) h = ground (arith, h)

read-ok :
    (k : ℕ) (o : Option File) (t : Bytes)
    → text_found k o ≡ ok t
    → (f : File) × (o ≡ some f) × (t ≡ take k f.bytes)
read-ok k none t h = ground (arith, h)
read-ok k (some f) t h = (f, refl, ground (arith, h))

pub directory-IsLawful : IsLawfulDirectory directory file_at
directory-IsLawful = record {
  list-keeps = λ s m g h. h;
  metadata-keeps = λ n s m g h. h;
  open-keeps = λ n s m g h. h;
  read-keeps = λ n k s m g h. h;
  new-keeps = λ n s. new-keeps n s (file_at s n) refl;
  sync_file-keeps = λ n s m g h. h;
  lock-keeps = λ n s m g h. h;
  link-keeps = λ a b s. link-keeps b s (file_at s b) (file_at s a) refl;
  sync-keeps = λ s m g h. h;
  random-keeps = λ k s m g h. h;
  remove-keeps = λ n s m g ne h. file_at-without n s m ne ∙ h;
  write-keeps = λ n text s f m g at h ne. write-keeps text s (file_at s n) f m g at h ne;
  metadata-ok = λ n s. metadata-ok (file_at s n);
  metadata-absent = λ n s. metadata-absent (file_at s n);
  read-ok = λ n k s. read-ok k (file_at s n);
  new-ok = λ n s. new-ok n s (file_at s n) refl;
  write-ok = λ n text s f h at. write-ok n text s (file_at s n) f refl at;
  link-ok = λ a b s. link-ok b s (file_at s b) (file_at s a);
}

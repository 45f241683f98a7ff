-- ===== src/Verifier/Replay/Publication.antt =====
-- The publication of a record of `FileReplayStore` (crates/keylix-verifier/src/replay.rs) beside the file
-- of another one.
use keylix_community.Prelude.{
  ℕ, ◌≡◌, ◌≢◌, refl, sym, Bool, ◌&&◌, Option, some, Bytes, Result, ok, err, arith, leb,
}
use keylix_community.Dpop.Errors.{DpopPortError}
use keylix_community.Dpop.Ports.{PortResult, fresh}
use keylix_community.Verifier.Directory.{
  IoError, already_exists, not_found, other, Directory, ◌>>◌, return, fail, observe, observed, lift,
  dir_metadata, dir_new_file, dir_remove_file, dir_hard_link,
}
use keylix_community.Verifier.Directory.Outcomes.{Outcome, Runs, bind-Runs, lift-Runs}
use keylix_community.Verifier.Directory.Laws.{
  File, IsLawfulDirectory, dir_metadata-keeps, dir_new_file-keeps, dir_hard_link-keeps,
  dir_remove_file-keeps, dir_new_file-ok,
}
use keylix_community.Verifier.Directory.Safe.{
  Any, Safe, safe_bind, safe_lift, safe_step, safe_guard, safe_return, if-Safe, safe_observe,
}
use keylix_community.Verifier.Replay.Names.{pending_random_bytes}
use keylix_community.Verifier.Replay.{
  answer, again, pending_name, publish, is_there, conclude, create, begin_record,
}
use keylix_community.Verifier.Replay.Keeps.{Kept}
use keylix_community.Verifier.Replay.Cleanup.{remove-Safe}

module _ {S : Type 0} {d : Directory S} {file_at : S → Bytes → Option File}
    (laws : IsLawfulDirectory d file_at) (j : Bytes) (f : File) where
  -- The marker has a file of its own.
  abbrev pub Apart : Bytes → S → Type 0
  Apart pending s = (p : File) × (file_at s pending ≡ some p) × (f.inode ≢ p.inode)

  -- Beside the record, the marker.
  abbrev pub Open : Bytes → S → Type 0
  Open pending s = Kept file_at j f s × (pending ≢ j) × Apart pending s

  write-Kept :
      (pending text : Bytes)
      → Runs
          (Open pending)
          (lift (d.write_all pending text))
          (λ u s. Kept file_at j f s)
          (Kept file_at j f)
  write-Kept pending text =
      lift-Runs (λ u s. Kept file_at j f s) (Kept file_at j f) (Open pending)
        (d.write_all pending text)
        (λ s (kept, ne, (p, at, apart)) u h. laws.write-keeps pending text s p j f at kept apart)
        (λ s (kept, ne, (p, at, apart)) e h. laws.write-keeps pending text s p j f at kept apart)

  -- What follows the link in a publication.
  pub unmark-Safe :
      (pending : Bytes)
      → pending ≢ j
      → Safe
          (Kept file_at j f)
          (lift d.sync_all >> (lift (dir_remove_file d pending) >> lift d.sync_all))
          Any
  unmark-Safe pending ne =
      safe_step (Kept file_at j f) Any d.sync_all _ (λ s. laws.sync-keeps s j f)
        (λ u3.
          safe_bind (Kept file_at j f) Any Any (lift (dir_remove_file d pending)) _
            (remove-Safe laws j f pending ne)
            (λ u4 t.
              safe_lift (Kept file_at j f) Any d.sync_all (λ s. laws.sync-keeps s j f)
                (λ s p a h. tt)))

  -- What follows the write in a publication.
  linked-Safe :
      (pending name : Bytes)
      → pending ≢ j
      → Safe
          (Kept file_at j f)
          (lift (d.sync_file pending)
            >> (lift (dir_hard_link d pending name)
                >> (lift d.sync_all >> (lift (dir_remove_file d pending) >> lift d.sync_all))))
          Any
  linked-Safe pending name ne =
      safe_step (Kept file_at j f) Any (d.sync_file pending) _
        (λ s. laws.sync_file-keeps pending s j f)
        (λ u1.
          safe_step (Kept file_at j f) Any (dir_hard_link d pending name) _
            (λ s. dir_hard_link-keeps laws pending name s j f) (λ u2. unmark-Safe pending ne))

  publish-Kept :
      (pending name text : Bytes)
      → Runs
          (Open pending)
          (publish d pending name text)
          (λ u s. Kept file_at j f s × Unit {0})
          (Kept file_at j f)
  unfolding publish
  publish-Kept pending name text s o =
      bind-Runs (λ u s. Kept file_at j f s) (λ u s. Kept file_at j f s × Unit {0})
        (Kept file_at j f) _ (λ u. linked-Safe pending name o.1) (Open pending)
        (lift (d.write_all pending text)) (write-Kept pending text) s o

  conclude-Safe :
      (first : Bool) (pending name : Bytes) (r : PortResult (Unit {0}))
      → pending ≢ j
      → Safe (Kept file_at j f) (conclude d first pending name r) Any
  unfolding conclude
  conclude-Safe first pending name (ok u) ne = safe_return (Kept file_at j f) Any (answer fresh) tt
  conclude-Safe first pending name (err e) ne =
      safe_bind (Kept file_at j f) Any Any (observe (dir_metadata d name)) _
        (safe_observe (Kept file_at j f) Any (dir_metadata d name)
          (λ s p. (dir_metadata-keeps laws name s j f p, tt)))
        (λ found t1.
          safe_bind (Kept file_at j f) Any Any (observe (dir_remove_file d pending)) _
            (safe_observe (Kept file_at j f) Any (dir_remove_file d pending)
              (λ s p. (dir_remove_file-keeps laws pending s j f (λ same. ne (sym same)) p, tt)))
            (λ removed t2.
              safe_bind (Kept file_at j f) Any Any (observe d.sync_all) _
                (safe_observe (Kept file_at j f) Any d.sync_all
                  (λ s p. (laws.sync-keeps s j f p, tt)))
                (λ synced t3.
                  if-Safe (Kept file_at j f) Any (is_there d found && first) (return again) fail
                    (λ h. safe_return (Kept file_at j f) Any again tt) (λ h s p. p))))

  -- What the creation of the marker leaves.
  abbrev Marked : Bytes → Result IoError (Unit {0}) → S → Type 0
  Marked pending (ok u) s = Open pending s
  Marked pending (err e) s = Kept file_at j f s

  marked :
      (pending : Bytes) (s : S)
      → Kept file_at j f s
      → (r : Result IoError (Unit {0})) → (dir_new_file d pending s).0 ≡ r
      → Marked pending r (dir_new_file d pending s).1
  marked pending s kept (ok u) h =
      let (free, p, at, empty, apart) = dir_new_file-ok laws pending s h in
      (
        dir_new_file-keeps laws pending s j f kept,
        λ same. ground (arith, free, kept, same),
        (p, at, apart j f kept),
      )
  marked pending s kept (err e) h = dir_new_file-keeps laws pending s j f kept

  observed-Marked :
      (pending : Bytes) (r : Result IoError (Unit {0}) × S)
      → Marked pending r.0 r.1
      → Outcome (Marked pending) (Kept file_at j f) (observed r)
  observed-Marked pending (r, s) h = h

  observed-Kept :
      (r : Result DpopPortError (Unit {0}) × S)
      → Outcome (λ u s. Kept file_at j f s × Unit {0}) (Kept file_at j f) r
      → Outcome (λ o s. Kept file_at j f s) (Kept file_at j f) (observed r)
  observed-Kept (ok u, s) h = h.0
  observed-Kept (err e, s) h = h

  create-Kept :
      (first : Bool) (pending name text : Bytes) (r : Result IoError (Unit {0}))
      → Runs
          (Marked pending r)
          (create d first pending name text r)
          (λ a s. Kept file_at j f s × Unit {0})
          (Kept file_at j f)
  unfolding create
  create-Kept first pending name text (ok u) s o =
      bind-Runs (λ r s. Kept file_at j f s) (λ a s. Kept file_at j f s × Unit {0})
        (Kept file_at j f) _ (λ r. conclude-Safe first pending name r o.1) (Open pending)
        (observe (publish d pending name text))
        (λ s o. observed-Kept (publish d pending name text s) (publish-Kept pending name text s o))
        s o
  create-Kept first pending name text (err already_exists) s p =
      if-Safe (Kept file_at j f) Any first (return again) fail
        (λ h. safe_return (Kept file_at j f) Any again tt) (λ h s p. p) s p
  create-Kept first pending name text (err not_found) s p = p
  create-Kept first pending name text (err other) s p = p

  pub begin_record-Safe :
      (first : Bool) (capacity active : ℕ) (name text : Bytes)
      → Safe (Kept file_at j f) (begin_record d first capacity active name text) Any
  unfolding begin_record pending_name
  begin_record-Safe first capacity active name text =
      safe_guard (Kept file_at j f) Any (leb capacity active) _ (λ h.
        safe_bind (Kept file_at j f) Any Any (pending_name d) _
          (safe_step (Kept file_at j f) Any (d.fill_random pending_random_bytes) _
            (λ s. laws.random-keeps pending_random_bytes s j f) (λ random s p. (p, tt)))
          (λ pending t.
            bind-Runs (Marked pending) (λ a s. Kept file_at j f s × Unit {0}) (Kept file_at j f) _
              (create-Kept first pending name text) (Kept file_at j f)
              (observe (dir_new_file d pending))
              (λ s kept.
                observed-Marked pending (dir_new_file d pending s) (marked pending s kept _ refl))))

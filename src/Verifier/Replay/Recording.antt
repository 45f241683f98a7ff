-- ===== src/Verifier/Replay/Recording.antt =====
-- What a call of `FileReplayStore` (crates/keylix-verifier/src/replay.rs) writes under the name of its key.
use keylix_community.Prelude.{
  ℕ, ◌≡◌, ◌≢◌, refl, ap, ◌++◌, Bool, true, false, ◌&&◌, [], Option, some, Bytes, Result, ok, err,
  arith, leb, if◌then◌else◌, ℤ,
}
use keylix_community.Dpop.Errors.{DpopPortError}
use keylix_community.Dpop.Ports.{PortResult, ReplayStatus, fresh}
use keylix_community.Verifier.Directory.{
  IoError, already_exists, not_found, other, Directory, M, ◌>>=◌, ◌>>◌, return, fail, fail_when,
  observe, observed, lift, dir_metadata, dir_new_file, dir_remove_file, dir_hard_link,
}
use keylix_community.Verifier.Directory.Outcomes.{Outcome, Runs, bind-Runs, lift-Runs}
use keylix_community.Verifier.Directory.Laws.{
  File, IsLawfulDirectory, dir_new_file-ok, dir_hard_link-ok,
}
use keylix_community.Verifier.Replay.{
  Round, answer, again, pending_name, cleanup_and_count, is_recorded, publish, is_there, conclude,
  create, begin_record, replay_or_record, round, answered, record_key,
}
use keylix_community.Verifier.Replay.Keeps.{Kept}
use keylix_community.Verifier.Replay.Publication.{unmark-Safe}

any-Outcome : {S A E : Type 0} (r : Result E A × S) → Outcome (λ a s. Unit {0}) (λ s. Unit {0}) r
any-Outcome (ok a, s) = tt
any-Outcome (err e, s) = tt

module _ {S : Type 0} {d : Directory S} {file_at : S → Bytes → Option File}
    (laws : IsLawfulDirectory d file_at) (name text : Bytes) where
  -- The name is that of a file with the text.
  abbrev pub Recorded : S → Type 0
  Recorded s = (g : File) × (file_at s name ≡ some g) × (g.bytes ≡ text)

  abbrev Trivial : S → Type 0
  Trivial s = Unit {0}

  -- A step of which nothing is needed.
  then_Runs :
      {A B : Type 0} (R : B → S → Type 0) (m : M S A) (k : A → M S B)
      → ((a : A) → Runs Trivial (k a) R Trivial)
      → Runs Trivial (m >>= k) R Trivial
  then_Runs R m k rest =
      bind-Runs (λ a s. Unit {0}) R Trivial k rest Trivial m (λ s t. any-Outcome (m s))

  abbrev Holding : Bytes → Bytes → S → Type 0
  Holding pending contents s = (p : File) × (file_at s pending ≡ some p) × (p.bytes ≡ contents)

  write-Holding :
      (pending : Bytes)
      → Runs
          (Holding pending [])
          (lift (d.write_all pending text))
          (λ u s. Holding pending text s)
          Trivial
  write-Holding pending =
      lift-Runs (λ u s. Holding pending text s) Trivial (Holding pending [])
        (d.write_all pending text)
        (λ s (p, at, empty) u h. (
          record p { bytes = p.bytes ++ text },
          laws.write-ok pending text s p h at,
          rw empty refl,
        ))
        (λ s p e h. tt)

  sync-Holding :
      (pending : Bytes)
      → Runs
          (Holding pending text)
          (lift (d.sync_file pending))
          (λ u s. Holding pending text s)
          Trivial
  sync-Holding pending =
      lift-Runs (λ u s. Holding pending text s) Trivial (Holding pending text) (d.sync_file pending)
        (λ s (p, at, same) u h. (p, laws.sync_file-keeps pending s pending p at, same))
        (λ s p e h. tt)

  abbrev Linked : Bytes → S → Type 0
  Linked pending s = Recorded s × (pending ≢ name)

  link-Linked :
      (pending : Bytes)
      → Runs
          (Holding pending text)
          (lift (dir_hard_link d pending name))
          (λ u s. Linked pending s)
          Trivial
  link-Linked pending =
      lift-Runs (λ u s. Linked pending s) Trivial (Holding pending text)
        (dir_hard_link d pending name)
        (λ s (p, at, same) u h.
          let (free, g, from, to) = dir_hard_link-ok laws pending name s h in
          ((g, to, ground (arith, at, from, same)), λ eq. ground (arith, free, at, eq)))
        (λ s p e h. tt)

  Recorded-Outcome :
      (g : File) (r : Result DpopPortError (Unit {0}) × S)
      → g.bytes ≡ text
      → Outcome (λ u s. Kept file_at name g s × Unit {0}) (Kept file_at name g) r
      → Outcome (λ u s. Recorded s) Trivial r
  Recorded-Outcome g (ok u, s) same kept = (g, kept.0, same)
  Recorded-Outcome g (err e, s) same kept = tt

  unmark-Recorded :
      (pending : Bytes)
      → Runs
          (Linked pending)
          (lift d.sync_all >> (lift (dir_remove_file d pending) >> lift d.sync_all))
          (λ u s. Recorded s)
          Trivial
  unmark-Recorded pending s ((g, at, same), ne) =
      Recorded-Outcome g _ same (unmark-Safe laws name g pending ne s at)

  publish-Recorded :
      (pending : Bytes)
      → Runs (Holding pending []) (publish d pending name text) (λ u s. Recorded s) Trivial
  unfolding publish
  publish-Recorded pending =
      bind-Runs (λ u s. Holding pending text s) (λ u s. Recorded s) Trivial _
        (λ u.
          bind-Runs (λ u s. Holding pending text s) (λ u s. Recorded s) Trivial _
            (λ u.
              bind-Runs (λ u s. Linked pending s) (λ u s. Recorded s) Trivial _
                (λ u. unmark-Recorded pending) (Holding pending text)
                (lift (dir_hard_link d pending name)) (link-Linked pending))
            (Holding pending text) (lift (d.sync_file pending)) (sync-Holding pending))
        (Holding pending []) (lift (d.write_all pending text)) (write-Holding pending)

  -- What an answer says of the state it comes with.
  abbrev Says : Round → S → Type 0
  Says r s = r ≡ answer fresh → Recorded s

  abbrev Succeeded : PortResult (Unit {0}) → S → Type 0
  Succeeded (ok u) s = Recorded s
  Succeeded (err e) s = Unit {0}

  observed-Succeeded :
      (r : PortResult (Unit {0}) × S)
      → Outcome (λ u s. Recorded s) Trivial r
      → Outcome Succeeded Trivial (observed r)
  observed-Succeeded (ok u, s) h = h
  observed-Succeeded (err e, s) h = tt

  retry-Says :
      (test : Bool) → Runs Trivial (λ s. (if test then return again else fail) s) Says Trivial
  retry-Says true s t = λ h. ground (arith, h)
  retry-Says false s t = tt

  conclude-Says :
      (first : Bool) (pending : Bytes) (r : PortResult (Unit {0}))
      → Runs (Succeeded r) (conclude d first pending name r) Says Trivial
  unfolding conclude
  conclude-Says first pending (ok u) = λ s h accepted. h
  conclude-Says first pending (err e) = then_Runs Says (observe (dir_metadata d name)) _ (λ found.
      then_Runs Says (observe (dir_remove_file d pending)) _ (λ removed.
        then_Runs Says (observe d.sync_all) _ (λ synced. retry-Says (is_there d found && first))))

  abbrev Created : Bytes → Result IoError (Unit {0}) → S → Type 0
  Created pending (ok u) s = Holding pending [] s
  Created pending (err e) s = Unit {0}

  create-Says :
      (first : Bool) (pending : Bytes) (r : Result IoError (Unit {0}))
      → Runs (Created pending r) (create d first pending name text r) Says Trivial
  unfolding create
  create-Says first pending (ok u) =
      bind-Runs Succeeded Says Trivial _ (conclude-Says first pending) (Holding pending [])
        (observe (publish d pending name text))
        (λ s h. observed-Succeeded (publish d pending name text s) (publish-Recorded pending s h))
  create-Says first pending (err already_exists) = retry-Says first
  create-Says first pending (err not_found) = λ s t. tt
  create-Says first pending (err other) = λ s t. tt

  created :
      (pending : Bytes) (s : S) (r : Result IoError (Unit {0}))
      → (dir_new_file d pending s).0 ≡ r
      → Created pending r (dir_new_file d pending s).1
  created pending s (ok u) h =
      let (free, p, at, empty, apart) = dir_new_file-ok laws pending s h in (p, at, empty)
  created pending s (err e) h = tt

  observed-Created :
      (pending : Bytes) (r : Result IoError (Unit {0}) × S)
      → Created pending r.0 r.1
      → Outcome (Created pending) Trivial (observed r)
  observed-Created pending (r, s) h = h

  begin_record-Says :
      (first : Bool) (capacity active : ℕ)
      → Runs Trivial (begin_record d first capacity active name text) Says Trivial
  unfolding begin_record
  begin_record-Says first capacity active = then_Runs Says (fail_when (leb capacity active)) _ (λ u.
      then_Runs Says (pending_name d) _ (λ pending.
        bind-Runs (Created pending) Says Trivial _ (create-Says first pending) Trivial
          (observe (dir_new_file d pending))
          (λ s t. observed-Created pending (dir_new_file d pending s) (created pending s _ refl))))

  record-Says :
      (first : Bool) (capacity active : ℕ) (known : Bool)
      → Runs Trivial (replay_or_record d first capacity active name text known) Says Trivial
  record-Says first capacity active true = λ s t h. ground (arith, h)
  record-Says first capacity active false = begin_record-Says first capacity active

  round-Says :
      (first : Bool) (now : ℤ) (capacity : ℕ)
      → Runs Trivial (round d first now capacity name text) Says Trivial
  unfolding round
  round-Says first now capacity = then_Runs Says (cleanup_and_count d now) _ (λ active.
      then_Runs Says (is_recorded d now name) _ (λ known. record-Says first capacity active known))

  abbrev pub Accepts : ReplayStatus → S → Type 0
  Accepts status s = status ≡ fresh → Recorded s

  answered-Accepts :
      (second : M S ReplayStatus) (r : Round)
      → Runs Trivial second Accepts Trivial
      → Runs (Says r) (answered d second r) Accepts Trivial
  answered-Accepts second (answer status) runs s said = λ accepted. said (ap answer accepted)
  answered-Accepts second again runs s said = runs s tt

  pub record_key-Accepts :
      (now : ℤ) (capacity : ℕ) → Runs Trivial (record_key d now capacity name text) Accepts Trivial
  unfolding record_key
  record_key-Accepts now capacity =
      bind-Runs Says Accepts Trivial _
        (λ r. answered-Accepts _ r (
          bind-Runs Says Accepts Trivial _ (λ r2. answered-Accepts fail r2 (λ s t. tt)) Trivial
            (round d false now capacity name text) (round-Says false now capacity)))
        Trivial (round d true now capacity name text) (round-Says true now capacity)

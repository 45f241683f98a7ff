-- ===== src/Verifier/Replay/Keeps.antt =====
-- The read of a record (`read_expiry` of crates/keylix-verifier/src/replay.rs) beside the file of an
-- unexpired one.
use keylix_community.Prelude.{
  ℕ, zero, suc, ◌≤◌, ◌≡◌, refl, sym, ap, ◌∙◌, Bool, false, ◌||◌, not, List, [], ◌∷◌, Option, none,
  some, Bytes, ok, length, take, arith, ltb, ◌==◌, ℤ,
}
use keylix_community.Verifier.Directory.{Stat, Directory, ◌>>=◌, lift, dir_metadata, dir_open_file}
use keylix_community.Verifier.Directory.Safe.{
  Safe, safe_bind, safe_lift, safe_step, safe_guard, safe_weaken,
}
use keylix_community.Verifier.Directory.Laws.{
  File, stat_of, IsLawfulDirectory, dir_metadata-keeps, dir_open_file-keeps, dir_metadata-ok,
}
use keylix_community.Verifier.Replay.Names.{parse_expiry}
use keylix_community.Verifier.Replay.{is_own, expiry_or_fail, read_expiry}

pub take_all {ℓ} : {A : Type ℓ} (n : ℕ) (xs : List A) → length xs ≤ n → take n xs ≡ xs
take_all zero [] h = refl
take_all zero (x ∷ xs) h = absurd (omega arith)
take_all (suc n) [] h = refl
take_all (suc n) (x ∷ xs) h = rw (take_all n xs (omega arith)) refl

-- The file is in its place.
abbrev pub Kept : {S : Type 0} → (S → Bytes → Option File) → Bytes → File → S → Type 0
Kept file_at j f s = file_at s j ≡ some f

-- What a read of the record's own name yields.
abbrev pub Reads : Bytes → File → Bytes → ℤ → Type 0
Reads j f name expiry = name ≡ j → parse_expiry f.bytes ≡ some expiry

module _ {S : Type 0} {d : Directory S} {file_at : S → Bytes → Option File}
    (laws : IsLawfulDirectory d file_at) (j : Bytes) (f : File) where
  own_stat :
      (name : Bytes) (s : S)
      → Kept file_at j f s
      → (st : Stat) → (dir_metadata d name s).0 ≡ ok st
      → name ≡ j
      → st ≡ stat_of f
  own_stat name s p st h same =
      let (g, there, shape) = dir_metadata-ok laws name s st h in cc (there, shape, p, same)

  own_text :
      (name : Bytes) (k : ℕ) (s : S)
      → Kept file_at j f s
      → (t : Bytes) → (d.read_text name k s).0 ≡ ok t
      → name ≡ j
      → t ≡ take k f.bytes
  own_text name k s p t h same =
      let (g, there, shape) = laws.read-ok name k s t h in cc (there, shape, p, same)

  expiry-Safe : (o : Option ℤ) → Safe (Kept file_at j f) (expiry_or_fail d o) (λ e. o ≡ some e)
  expiry-Safe none s p = p
  expiry-Safe (some e) s p = (p, refl)

  whole_text :
      (entry : Stat) (value : Bytes)
      → entry ≡ stat_of f
      → ((entry.size == 0) || ltb 32 entry.size) ≡ false
      → value ≡ take 33 f.bytes
      → value ≡ f.bytes
  whole_text entry value shape small read = read ∙ take_all 33 f.bytes (ground (arith, shape))

  abbrev unlike_record : Stat → Bool
  unlike_record entry = not (is_own d entry) || ((entry.size == 0) || ltb 32 entry.size)

  parsed-Safe :
      (name : Bytes) (entry : Stat) (value : Bytes)
      → (name ≡ j → entry ≡ stat_of f)
      → unlike_record entry ≡ false
      → (name ≡ j → value ≡ take 33 f.bytes)
      → Safe (Kept file_at j f) (expiry_or_fail d (parse_expiry value)) (Reads j f name)
  parsed-Safe name entry value shape own read =
      safe_weaken (Kept file_at j f) (λ e. parse_expiry value ≡ some e) (Reads j f name)
        (expiry_or_fail d (parse_expiry value))
        (λ e parsed same.
          ap parse_expiry (sym (whole_text entry value (shape same) (ground arith) (read same)))
          ∙ parsed)
        (expiry-Safe (parse_expiry value))

  opened-Safe :
      (name : Bytes) (entry : Stat)
      → (name ≡ j → entry ≡ stat_of f)
      → unlike_record entry ≡ false
      → Safe
          (Kept file_at j f)
          (lift (d.read_text name 33) >>= λ value. expiry_or_fail d (parse_expiry value))
          (Reads j f name)
  opened-Safe name entry shape own =
      safe_bind (Kept file_at j f) (λ value. name ≡ j → value ≡ take 33 f.bytes) (Reads j f name)
        (lift (d.read_text name 33)) (λ value. expiry_or_fail d (parse_expiry value))
        (safe_lift (Kept file_at j f) (λ value. name ≡ j → value ≡ take 33 f.bytes)
          (d.read_text name 33) (λ s. laws.read-keeps name 33 s j f) (own_text name 33))
        (λ value read. parsed-Safe name entry value shape own read)

  pub read_expiry-Safe :
      (name : Bytes) → Safe (Kept file_at j f) (read_expiry d name) (Reads j f name)
  unfolding read_expiry
  read_expiry-Safe name =
      safe_bind (Kept file_at j f) (λ entry. name ≡ j → entry ≡ stat_of f) (Reads j f name)
        (lift (dir_metadata d name)) _
        (safe_lift (Kept file_at j f) (λ entry. name ≡ j → entry ≡ stat_of f) (dir_metadata d name)
          (λ s. dir_metadata-keeps laws name s j f) (own_stat name))
        (λ entry shape.
          safe_guard (Kept file_at j f) (Reads j f name) (unlike_record entry) _ (λ own.
            safe_step (Kept file_at j f) (Reads j f name) (dir_open_file d name) _
              (λ s. dir_open_file-keeps laws name s j f)
              (λ opened.
                safe_guard (Kept file_at j f) (Reads j f name) (unlike_record opened)
                  (lift (d.read_text name 33) >>= λ value. expiry_or_fail d (parse_expiry value))
                  (λ opened_own. opened-Safe name entry shape own))))

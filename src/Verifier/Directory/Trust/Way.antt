-- ===== src/Verifier/Directory/Trust/Way.antt =====
-- The way to a directory, from the root on (`open_absolute_directory` of
-- crates/keylix-verifier/src/secure_fs.rs).
use keylix_community.Prelude.{
  ◌++◌, ◌≡◌, ◌↔◌, refl, sym, ap, ◌∙◌, Bool, true, false, List, [], ◌∷◌, Bytes, Result, ok, err,
  arith, >>=-eq-ok,
}
use keylix_community.Verifier.Directory.{IoError, Io}
use keylix_community.Verifier.Directory.Trust.{
  Component, root_dir, cur_dir, parent_dir, prefix, normal, read_components,
  normalized_absolute_components,
}
use keylix_community.Verifier.Directory.Trust.Opening.{
  OpenAt, after, ◌>>=◌, FilePath, Opened, walk, open_absolute_directory,
}

after-ok :
    {S A B : Type 0} (k : A → Io S B) (r : Result IoError A × S) (b : B) (t : S)
    → after k r ≡ (ok b, t)
    → (a : A) × (u : S) × (r ≡ (ok a, u)) × (k a u ≡ (ok b, t))
after-ok k (ok a, u) b t h = (a, u, refl, h)
after-ok k (err e, u) b t h = absurd (ground (arith, ap (λ (r : Result IoError _ × _). r.0) h))

-- What is left when code returned: its first part did, and so did the rest.
pub io-ok :
    {S A B : Type 0} (m : Io S A) (k : A → Io S B) (s t : S) (b : B)
    → (m >>= k) s ≡ (ok b, t)
    → (a : A) × (u : S) × (m s ≡ (ok a, u)) × (k a u ≡ (ok b, t))
io-ok m k s t b h = after-ok k (m s) b t h

pub from-ok :
    {S A B : Type 0} (r : Result IoError A) (k : A → Io S B) (s t : S) (b : B)
    → after k (r, s) ≡ (ok b, t)
    → (a : A) × (r ≡ ok a) × (k a s ≡ (ok b, t))
from-ok (ok a) k s t b h = (a, refl, h)
from-ok (err e) k s t b h = absurd (ground (arith, ap (λ (r : Result IoError _ × _). r.0) h))

-- The names of a path that goes down only: no component but the root and names.
abbrev pub IsPlain : List Component → List Bytes → Type 0
IsPlain [] names = names ≡ []
IsPlain (root_dir ∷ components) names = IsPlain components names
IsPlain (normal value ∷ components) names =
    (rest : List Bytes) × (names ≡ value ∷ rest) × IsPlain components rest
IsPlain (cur_dir ∷ components) names = ⊥
IsPlain (parent_dir ∷ components) names = ⊥
IsPlain (prefix ∷ components) names = ⊥

read_components_iff :
    (components : List Component) (names : List Bytes)
    → (read_components components ≡ ok names) ↔ IsPlain components names
unfolding read_components
read_components_iff [] names = (λ h. ground (arith, h), λ h. ap ok (sym h))
read_components_iff (root_dir ∷ components) names = read_components_iff components names
read_components_iff (normal value ∷ components) names = (
  λ h.
      let (rest, read, h1) = >>=-eq-ok (read_components components) _ h in
      (rest, ground (arith, h1), (read_components_iff components rest).0 read),
  λ (rest, same, plain). rw ((read_components_iff components rest).1 plain) (ap ok (sym same)),
)
read_components_iff (cur_dir ∷ components) names = (λ h. ground (arith, h), λ h. absurd h)
read_components_iff (parent_dir ∷ components) names = (λ h. ground (arith, h), λ h. absurd h)
read_components_iff (prefix ∷ components) names = (λ h. ground (arith, h), λ h. absurd h)

components_iff :
    (is_absolute : Bool) (components : List Component) (names : List Bytes)
    → (normalized_absolute_components is_absolute components ≡ ok names)
      ↔ ((is_absolute ≡ true) × IsPlain components names)
unfolding normalized_absolute_components
components_iff true components names = (
  λ h. (refl, (read_components_iff components names).0 h),
  λ (a, h). (read_components_iff components names).1 h,
)
components_iff false components names = (λ h. ground (arith, h), λ (a, h). ground (arith, a))

module _ {S H F : Type 0} (os : OpenAt S H F) where
  -- From an open directory down the names: each next directory is opened in the one before it, and the
  -- list holds a copy of each; the last is the one that the names lead to.
  abbrev pub IsWay : H → List Bytes → S → List H → H → S → Type 0
  IsWay current [] s dirs last t = (dirs ≡ []) × (last ≡ current) × (s ≡ t)
  IsWay current (name ∷ names) s dirs last t =
      (next : H) × (u : S) × (os.sub_dir current name s ≡ (ok next, u))
      × (copy : H) × (v : S) × (os.try_clone next u ≡ (ok copy, v))
      × (rest : List H) × (dirs ≡ copy ∷ rest)
      × IsWay next names v rest last t

  -- The same from the root on.
  pub record IsOpened (path : FilePath) (s : S) (dirs : List H) (last : H) (t : S) : Type 0 where
    pub absolute : path.is_absolute ≡ true
    pub names : List Bytes
    pub plain : IsPlain path.components names
    pub root : H
    pub rooted : S
    pub at_root : os.open_root s ≡ (ok root, rooted)
    pub copy : H
    pub copied : S
    pub copied_root : os.try_clone root rooted ≡ (ok copy, copied)
    pub below : List H
    pub from_root : dirs ≡ copy ∷ below
    pub way : IsWay root names copied below last t

  append_assoc :
      (ancestors : List H) (copy : H) (rest : List H)
      → (ancestors ++ (copy ∷ [])) ++ rest ≡ ancestors ++ (copy ∷ rest)
  append_assoc [] copy rest = refl
  append_assoc (a ∷ ancestors) copy rest = ap (λ l. a ∷ l) (append_assoc ancestors copy rest)

  append_nil : (ancestors : List H) → ancestors ++ [] ≡ ancestors
  append_nil [] = refl
  append_nil (a ∷ ancestors) = ap (λ l. a ∷ l) (append_nil ancestors)

  walk_sound :
      (current : H) (ancestors : List H) (names : List Bytes) (s : S) (at : Opened H) (t : S)
      → walk os current ancestors names s ≡ (ok at, t)
      → (dirs : List H) × (at.dirs ≡ ancestors ++ dirs) × IsWay current names s dirs at.final_dir t
  unfolding walk
  walk_sound current ancestors [] s at t h =
      let same : record { dirs = ancestors; final_dir = current } ≡ at =
        ground (arith, ap (λ (r : Result IoError (Opened H) × S). r.0) h) in
      (
        [],
        ap (λ (o : Opened H). o.dirs) (sym same) ∙ sym (append_nil ancestors),
        (
          refl,
          ap (λ (o : Opened H). o.final_dir) (sym same),
          ap (λ (r : Result IoError (Opened H) × S). r.1) h,
        ),
      )
  walk_sound current ancestors (name ∷ names) s at t h =
      let (next, u, entered, h1) = io-ok (os.sub_dir current name) _ s t at h in
      let (copy, v, cloned, h2) = io-ok (os.try_clone next) _ u t at h1 in
      let (rest, dirs, way) = walk_sound next (ancestors ++ (copy ∷ [])) names v at t h2 in
      (
        copy ∷ rest,
        dirs ∙ append_assoc ancestors copy rest,
        (next, u, entered, copy, v, cloned, rest, refl, way),
      )

  walk_complete :
      (current : H) (ancestors : List H) (names : List Bytes) (s : S) (dirs : List H) (last : H)
      (t : S)
      → IsWay current names s dirs last t
      → walk os current ancestors names s
        ≡ (ok (record { dirs = ancestors ++ dirs; final_dir = last }), t)
  unfolding walk
  walk_complete current ancestors [] s dirs last t (none_left, same, still) =
      rw (none_left, same, still, append_nil ancestors) refl
  walk_complete current ancestors (name ∷ names) s dirs last t
        (next, u, entered, copy, v, cloned, rest, same, way) =
      rw
        (
          entered,
          cloned,
          walk_complete next (ancestors ++ (copy ∷ [])) names v rest last t way,
          same,
          append_assoc ancestors copy rest,
        )
        refl

  pub open_absolute_directory_iff :
      (path : FilePath) (s : S) (at : Opened H) (t : S)
      → (open_absolute_directory os path s ≡ (ok at, t)) ↔ IsOpened path s at.dirs at.final_dir t
  unfolding open_absolute_directory
  open_absolute_directory_iff path s at t = (
    λ h.
        let (names, read, h1) =
          from-ok (normalized_absolute_components path.is_absolute path.components) _ s t at h in
        let (absolute, plain) = (components_iff path.is_absolute path.components names).0 read in
        let (root, rooted, at_root, h2) = io-ok os.open_root _ s t at h1 in
        let (copy, copied, copied_root, h3) = io-ok (os.try_clone root) _ rooted t at h2 in
        let (below, from_root, way) = walk_sound root (copy ∷ []) names copied at t h3 in
        record {
          absolute = absolute;
          names = names;
          plain = plain;
          root = root;
          rooted = rooted;
          at_root = at_root;
          copy = copy;
          copied = copied;
          copied_root = copied_root;
          below = below;
          from_root = from_root;
          way = way;
        },
    λ o.
        rw
          (
            (components_iff path.is_absolute path.components o.names).1 (o.absolute, o.plain),
            o.at_root,
            o.copied_root,
            walk_complete o.root (o.copy ∷ []) o.names o.copied o.below at.final_dir t o.way,
          )
          (ap (λ (dirs : List H). (ok (record { dirs = dirs; final_dir = at.final_dir }), t))
            (sym o.from_root)),
  )

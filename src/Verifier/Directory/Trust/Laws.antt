-- ===== src/Verifier/Directory/Trust/Laws.antt =====
-- Which directories crates/keylix-verifier/src/secure_fs.rs admits as the service's own.
use keylix_community.Prelude.{
  ℕ, ◌/◌, ◌%◌, ◌≡◌, ◌⊎◌, ◌↔◌, refl, sym, ap, subst, ◌++◌, List, [], ◌∷◌, Option, none, some, Bytes,
  Result, ok, arith, codes,
}
use keylix_community.Verifier.Replay.Names.{hex}
use keylix_community.Verifier.Directory.{IoError}
use keylix_community.Verifier.Directory.Trust.{
  DirStat, validate_directory, validate_leaf_metadata, FileStat,
}
use keylix_community.Verifier.Directory.Trust.Opening.{
  OpenAt, FilePath, SecureDir, open_absolute_directory, validate_directory_chain,
  validate_service_leaf, random_probe_name, probe_directory_owner_uid, chosen_owner,
  open_service_owned,
}
use keylix_community.Verifier.Directory.Trust.Way.{
  io-ok, from-ok, IsOpened, open_absolute_directory_iff,
}

-- Owned by root or by the trusted user, and written by its owner alone.
abbrev pub IsTrusted : ℕ → DirStat → Type 0
IsTrusted trusted stat =
    ((stat.uid ≡ 0) ⊎ (stat.uid ≡ trusted)) × ((stat.mode / 16) % 2 ≡ 0) × ((stat.mode / 2) % 2 ≡ 0)

validate_directory_iff :
    (trusted : ℕ) (stat : DirStat)
    → (validate_directory trusted stat ≡ ok tt) ↔ IsTrusted trusted stat
unfolding validate_directory
validate_directory_iff trusted stat = ground arith

validate_leaf_metadata_iff :
    (owner : ℕ) (stat : DirStat)
    → (validate_leaf_metadata owner stat ≡ ok tt) ↔ ((stat.uid ≡ owner) × (stat.mode % 64 ≡ 0))
unfolding validate_leaf_metadata
validate_leaf_metadata_iff owner stat = ground arith

module _ {S H F : Type 0} (os : OpenAt S H F) where
  -- The metadata of each directory, read one after the other, is trusted.
  abbrev pub AllTrusted : ℕ → List H → S → S → Type 0
  AllTrusted trusted [] s t = s ≡ t
  AllTrusted trusted (dir ∷ dirs) s t =
      (stat : DirStat) × (u : S) × (os.self_metadata dir s ≡ (ok stat, u))
      × IsTrusted trusted stat
      × AllTrusted trusted dirs u t

  -- The directory's metadata, when it is read: owned by the service, and open to its owner alone.
  abbrev pub IsPrivate : ℕ → H → S → S → Type 0
  IsPrivate owner dir s t =
      (stat : DirStat) × (os.self_metadata dir s ≡ (ok stat, t))
      × (stat.uid ≡ owner)
      × (stat.mode % 64 ≡ 0)

  -- The owner of a file that is made in the directory under a random name and removed again.
  pub record IsProbed (dir : H) (s : S) (uid : ℕ) (t : S) : Type 0 where
    pub random : Bytes
    pub drawn : S
    pub filled : os.fill_random 16 s ≡ (ok random, drawn)
    pub file : F
    pub made : S
    pub created :
        os.new_file dir (codes ".keylix-owner-probe-" ++ hex random) drawn ≡ (ok file, made)
    pub stat : FileStat
    pub seen : S
    pub read : os.file_metadata file made ≡ (ok stat, seen)
    pub owned : stat.uid ≡ uid
    pub removed : os.remove_file dir (codes ".keylix-owner-probe-" ++ hex random) seen ≡ (ok tt, t)

  -- The expected owner, or else the one that the probe finds.
  abbrev pub IsOwner : H → Option ℕ → S → ℕ → S → Type 0
  IsOwner dir none s uid t = IsProbed dir s uid t
  IsOwner dir (some expected) s uid t = (uid ≡ expected) × (s ≡ t)

  pub validate_directory_chain_iff :
      (trusted : ℕ) (dirs : List H) (s t : S)
      → (validate_directory_chain os dirs trusted s ≡ (ok tt, t)) ↔ AllTrusted trusted dirs s t
  unfolding validate_directory_chain
  validate_directory_chain_iff trusted [] s t =
      (λ h. ap (λ (r : Result IoError (Unit {0}) × S). r.1) h, λ h. ap (λ (u : S). (ok tt, u)) h)
  validate_directory_chain_iff trusted (dir ∷ dirs) s t = (
    λ h.
        let (stat, u, read, h1) = io-ok (os.self_metadata dir) _ s t tt h in
        let (_, good, h2) = from-ok (validate_directory trusted stat) _ u t tt h1 in
        (
          stat,
          u,
          read,
          (validate_directory_iff trusted stat).0 good,
          (validate_directory_chain_iff trusted dirs u t).0 h2,
        ),
    λ (stat, u, read, good, rest).
        rw
          (
            read,
            (validate_directory_iff trusted stat).1 good,
            (validate_directory_chain_iff trusted dirs u t).1 rest,
          )
          refl,
  )

  validate_service_leaf_iff :
      (owner : ℕ) (dir : H) (s t : S)
      → (validate_service_leaf os dir owner s ≡ (ok tt, t)) ↔ IsPrivate owner dir s t
  unfolding validate_service_leaf
  validate_service_leaf_iff owner dir s t = (
    λ h.
        let (stat, u, read, h1) = io-ok (os.self_metadata dir) _ s t tt h in
        let good = ap (λ (r : Result IoError (Unit {0}) × S). r.0) h1 in
        let still : u ≡ t = ap (λ (r : Result IoError (Unit {0}) × S). r.1) h1 in
        (
          stat,
          subst (λ v. os.self_metadata dir s ≡ (ok stat, v)) still read,
          ((validate_leaf_metadata_iff owner stat).0 good).0,
          ((validate_leaf_metadata_iff owner stat).0 good).1,
        ),
    λ (stat, read, owned, closed).
        rw (read, (validate_leaf_metadata_iff owner stat).1 (owned, closed)) refl,
  )

  random_probe_name_sound :
      (s : S) (name : Bytes) (t : S)
      → random_probe_name os s ≡ (ok name, t)
      → (random : Bytes) × (os.fill_random 16 s ≡ (ok random, t))
        × (name ≡ codes ".keylix-owner-probe-" ++ hex random)
  unfolding random_probe_name
  random_probe_name_sound s name t h =
      let (random, u, filled, h1) = io-ok (os.fill_random 16) _ s t name h in
      (
        random,
        subst (λ v. os.fill_random 16 s ≡ (ok random, v))
            (ap (λ (r : Result IoError Bytes × S). r.1) h1) filled,
        sym (ground (arith, ap (λ (r : Result IoError Bytes × S). r.0) h1)),
      )

  probe_iff :
      (dir : H) (s : S) (uid : ℕ) (t : S)
      → (probe_directory_owner_uid os dir s ≡ (ok uid, t)) ↔ IsProbed dir s uid t
  unfolding probe_directory_owner_uid random_probe_name
  probe_iff dir s uid t = (
    λ h.
        let (name, drawn, named, h1) = io-ok (random_probe_name os) _ s t uid h in
        let (random, filled, spelled) = random_probe_name_sound s name drawn named in
        let (file, made, created, h2) = io-ok (os.new_file dir name) _ drawn t uid h1 in
        let (stat, seen, read, h3) = io-ok (os.file_metadata file) _ made t uid h2 in
        let (_, last, removed, h4) = io-ok (os.remove_file dir name) _ seen t uid h3 in
        record {
          random = random;
          drawn = drawn;
          filled = filled;
          file = file;
          made = made;
          created = subst (λ n. os.new_file dir n drawn ≡ (ok file, made)) spelled created;
          stat = stat;
          seen = seen;
          read = read;
          owned = ground (arith, ap (λ (r : Result IoError ℕ × S). r.0) h4);
          removed =
              subst (λ n. os.remove_file dir n seen ≡ (ok tt, t)) spelled
                (subst (λ v. os.remove_file dir name seen ≡ (ok tt, v))
                  (ap (λ (r : Result IoError ℕ × S). r.1) h4) removed);
        },
    λ w. rw (w.filled, w.created, w.read, w.removed) (ap (λ (n : ℕ). (ok n, t)) w.owned),
  )

  chosen_owner_iff :
      (dir : H) (expected : Option ℕ) (s : S) (uid : ℕ) (t : S)
      → (chosen_owner os expected dir s ≡ (ok uid, t)) ↔ IsOwner dir expected s uid t
  unfolding chosen_owner
  chosen_owner_iff dir none s uid t = probe_iff dir s uid t
  chosen_owner_iff dir (some expected) s uid t = (
    λ h. (
      ground (arith, ap (λ (r : Result IoError ℕ × S). r.0) h),
      ap (λ (r : Result IoError ℕ × S). r.1) h,
    ),
    λ (same, still). rw (same, still) refl,
  )

  -- What the admission of a directory rests on.
  pub record IsServiceOwned (path : FilePath) (expected : Option ℕ) (s : S) (admitted : SecureDir H)
      (t : S) : Type 0 where
    pub dirs : List H
    pub arrived : S
    pub opened : IsOpened os path s dirs admitted.dir arrived
    pub asked : S
    pub owner : IsOwner admitted.dir expected arrived admitted.owner_uid asked
    pub checked : S
    pub trusted : AllTrusted admitted.owner_uid dirs asked checked
    pub private : IsPrivate admitted.owner_uid admitted.dir checked t

  -- A directory is admitted as the service's own, for an owner, exactly if its path is absolute and has
  -- no component but the root and names; the root, and then each name's directory in the one before,
  -- could be opened and copied, and the admitted directory is the last of them; the owner is the
  -- expected one, or else that of a file which is made there under a random name and removed; each of
  -- the copies, the root's included, is then found owned by root or that owner and writable by its
  -- owner alone; and the admitted directory is found the owner's and private.
  pub open_service_owned_iff :
      (path : FilePath) (expected : Option ℕ) (s : S) (admitted : SecureDir H) (t : S)
      → (open_service_owned os path expected s ≡ (ok admitted, t))
        ↔ IsServiceOwned path expected s admitted t
  unfolding open_service_owned
  open_service_owned_iff path expected s admitted t = (
    λ h.
        let (at, arrived, way, h1) = io-ok (open_absolute_directory os path) _ s t admitted h in
        let (uid, asked, owner, h2) =
          io-ok (chosen_owner os expected at.final_dir) _ arrived t admitted h1 in
        let (_, checked, chain, h3) =
          io-ok (validate_directory_chain os at.dirs uid) _ asked t admitted h2 in
        let (_, last, leaf, h4) =
          io-ok (validate_service_leaf os at.final_dir uid) _ checked t admitted h3 in
        let same : record { dir = at.final_dir; owner_uid = uid } ≡ admitted =
          ground (arith, ap (λ (r : Result IoError (SecureDir H) × S). r.0) h4) in
        let still : last ≡ t = ap (λ (r : Result IoError (SecureDir H) × S). r.1) h4 in
        subst (λ (x : SecureDir H). IsServiceOwned path expected s x t) same
          (record {
            dirs = at.dirs;
            arrived = arrived;
            opened = (open_absolute_directory_iff os path s at arrived).0 way;
            asked = asked;
            owner = (chosen_owner_iff at.final_dir expected arrived uid asked).0 owner;
            checked = checked;
            trusted = (validate_directory_chain_iff uid at.dirs asked checked).0 chain;
            private =
                subst (λ v. IsPrivate uid at.final_dir checked v) still
                  ((validate_service_leaf_iff uid at.final_dir checked last).0 leaf);
          }),
    λ w.
        rw
          (
            (open_absolute_directory_iff os path s
                  (record { dirs = w.dirs; final_dir = admitted.dir }) w.arrived).1
                w.opened,
            (chosen_owner_iff admitted.dir expected w.arrived admitted.owner_uid w.asked).1 w.owner,
            (validate_directory_chain_iff admitted.owner_uid w.dirs w.asked w.checked).1 w.trusted,
            (validate_service_leaf_iff admitted.owner_uid admitted.dir w.checked t).1 w.private,
          )
          refl,
  )

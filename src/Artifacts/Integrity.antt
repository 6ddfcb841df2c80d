-- ===== src/Artifacts/Integrity.antt =====
-- What the store of packages/runtime/src/artifact-store.ts promises of its objects.
use parallelplay.Prelude.{
  append-eq-nil, ◌≡◌, ◌↔◌, refl, true, Option, none, some, List, [], ◌∷◌, String, get, All, length,
  same, same→eq, same_refl, ◌==◌, arith, Bool-cases, inl, inr,
}
use parallelplay.Model.{ArtifactEntry}
use parallelplay.Artifacts.Names.{valid_artifact_path, is_digest, object_name}
use parallelplay.Artifacts.Store.{
  Bytes, Files, answer, check_object, check_entry, verify, read_object, read_checked, read,
}

module _ (digest : Bytes → String) where
  -- The object of an entry is there and is what the entry says.
  pub record Intact (f : Files) (entry : ArtifactEntry) : Type 0 where
    pub path_is_valid : valid_artifact_path entry.path ≡ true
    pub digest_is_valid : is_digest entry.sha256 ≡ true
    pub bytes : Bytes
    pub there : get (object_name entry.sha256) f.objects ≡ some bytes
    pub of_size : length bytes ≡ entry.size
    pub of_digest : digest bytes ≡ entry.sha256

  check_object-inv :
      (entry : ArtifactEntry) (o : Option Bytes)
      → check_object digest entry o ≡ []
      → (b : Bytes) × (o ≡ some b) × (length b ≡ entry.size) × (digest b ≡ entry.sha256)
  unfolding check_object
  check_object-inv entry none h = cc
  check_object-inv entry (some b) h = elim (Bool-cases (length b == entry.size)) [
    | inl size ↦ elim (Bool-cases (same (digest b) entry.sha256)) [
      | inl own ↦ (b, refl, ground arith, same→eq (digest b) entry.sha256 own)
      | inr other ↦ absurd (cc (rw (size, other) at h))
    ]
    | inr other ↦ absurd (cc (rw other at h))
  ]

  check_entry-inv :
      (f : Files) (entry : ArtifactEntry) → check_entry digest f entry ≡ [] → Intact f entry
  unfolding check_entry
  check_entry-inv f entry h = elim (Bool-cases (valid_artifact_path entry.path)) [
    | inl good ↦ elim (Bool-cases (is_digest entry.sha256)) [
      | inl shaped ↦
          let (b, there, size, own) = check_object-inv entry _ (rw (good, shaped) at h) in
          record {
            path_is_valid = good;
            digest_is_valid = shaped;
            bytes = b;
            there = there;
            of_size = size;
            of_digest = own;
          }
      | inr bad ↦ absurd (cc (rw (good, bad) at h))
    ]
    | inr bad ↦ absurd (cc (rw bad at h))
  ]

  Intact-check_entry :
      (f : Files) (entry : ArtifactEntry) → Intact f entry → check_entry digest f entry ≡ []
  unfolding check_entry check_object
  Intact-check_entry f entry i =
      let size : (length i.bytes == entry.size) ≡ true = let e = i.of_size in ground arith in
      rw (i.path_is_valid, i.digest_is_valid, i.there, size, i.of_digest, same_refl entry.sha256)
        refl

  verify-inv :
      (f : Files) (entries : List ArtifactEntry)
      → verify digest f entries ≡ []
      → All (Intact f) entries
  unfolding verify
  verify-inv f [] h = tt
  verify-inv f (entry ∷ entries) h =
      let (one, rest) = append-eq-nil (check_entry digest f entry) (verify digest f entries) h in
      (check_entry-inv f entry one, verify-inv f entries rest)

  Intact-verify :
      (f : Files) (entries : List ArtifactEntry)
      → All (Intact f) entries
      → verify digest f entries ≡ []
  unfolding verify
  Intact-verify f [] all = refl
  Intact-verify f (entry ∷ entries) (one, rest) =
      rw (Intact-check_entry f entry one) (Intact-verify f entries rest)

  pub read-Intact :
      (f : Files) (entry : ArtifactEntry) (i : Intact f entry)
      → read digest f entry ≡ answer i.bytes
  unfolding read read_checked read_object
  read-Intact f entry i = rw (Intact-verify f (entry ∷ []) (i, tt), i.there) refl

  -- The check of entries is exact: `verify` finds no failure if and only if the path and the digest of
  -- every entry are well formed, its object is there, and the object has its size and its digest.
  pub verify_iff :
      (f : Files) (entries : List ArtifactEntry)
      → (verify digest f entries ≡ []) ↔ All (Intact f) entries
  verify_iff f entries = (verify-inv f entries, Intact-verify f entries)

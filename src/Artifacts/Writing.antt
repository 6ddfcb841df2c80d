-- ===== src/Artifacts/Writing.antt =====
-- What `put` of packages/runtime/src/artifact-store.ts writes.
use parallelplay.Prelude.{
  ◌≡◌, ◌⊎◌, refl, sym, ap, subst, ◌∙◌, true, Option, none, some, String, get, has, get-set_self,
  length, same, same→eq, ltb, Bool-cases, inl, inr,
}
use parallelplay.Model.{ArtifactEntry}
use parallelplay.Artifacts.Names.{valid_artifact_path, is_digest, is_role, object_name}
use parallelplay.Artifacts.Store.{
  Bytes, Files, WriteFailure, Surroundings, write_object, Answer, answer, raised, link_object,
  create_object, store_object, finish_put, put, read,
}
use parallelplay.Artifacts.Integrity.{read-Intact}

module _ (digest : Bytes → String) where
  -- What a put that answers went through.
  record Stored (temporary : String) (around : Surroundings) (path role : String) (bytes : Bytes)
      (f f' : Files) (entry : ArtifactEntry) : Type 0 where
    path_is_valid : valid_artifact_path path ≡ true
    digest_is_valid : is_digest (digest bytes) ≡ true
    is_entry :
        record { path = path; role = role; size = length bytes; sha256 = digest bytes } ≡ entry
    stored :
        store_object digest temporary
          (digest bytes)
          bytes
          around
          f
          (get (object_name (digest bytes)) f.objects)
        ≡ (f', answer tt)

  finish_put-inv :
      (entry entry' : ArtifactEntry) (r : Files × Answer (Unit {0})) (f' : Files)
      → finish_put digest entry r ≡ (f', answer entry')
      → (r ≡ (f', answer tt)) × (entry ≡ entry')
  unfolding finish_put
  finish_put-inv entry entry' (f, answer tt) f' h =
      let one = ap (λ p. p.0) h in let two = ap (λ p. p.1) h in (rw one refl, cc)
  finish_put-inv entry entry' (f, raised message) f' h = absurd (cc (ap (λ p. p.1) h))

  put-Stored :
      (temporary : String) (around : Surroundings) (path role : String) (bytes : Bytes)
      (f f' : Files) (entry : ArtifactEntry)
      → put digest temporary around path role bytes f ≡ (f', answer entry)
      → Stored temporary around path role bytes f f' entry
  unfolding put
  put-Stored temporary around path role bytes f f' entry h =
      elim (Bool-cases (valid_artifact_path path)) [
        | inr bad ↦ absurd (cc (ap (λ p. p.1) (rw bad at h)))
        | inl good ↦ elim (Bool-cases (is_role role)) [
          | inr bad ↦ absurd (cc (ap (λ p. p.1) (rw (good, bad) at h)))
          | inl named ↦ elim (Bool-cases (ltb 268435456 (length bytes))) [
            | inl large ↦ absurd (cc (ap (λ p. p.1) (rw (good, named, large) at h)))
            | inr fits ↦ elim (Bool-cases (is_digest (digest bytes))) [
              | inr bad ↦ absurd (cc (ap (λ p. p.1) (rw (good, named, fits, bad) at h)))
              | inl shaped ↦
                  let (stored, own) =
                    finish_put-inv _ entry _ f' (rw (good, named, fits, shaped) at h) in
                  record {
                    path_is_valid = good;
                    digest_is_valid = shaped;
                    is_entry = own;
                    stored = stored;
                  }
            ]
          ]
        ]
      ]

  -- No other bytes with this digest are in the place of the object, or come to be there.
  abbrev pub NoCollision : Option Bytes → Bytes → Files → Type 0
  NoCollision raced bytes f =
      (other : Bytes)
      → (get (object_name (digest bytes)) f.objects ≡ some other) ⊎ (raced ≡ some other)
      → digest other ≡ digest bytes
      → other ≡ bytes

  write_object-there :
      (temporary destination : String) (bytes : Bytes) (raced : Option Bytes) (f f' : Files)
      (failure : Option WriteFailure)
      → ((other : Bytes) → raced ≡ some other → digest other ≡ digest bytes → other ≡ bytes)
      → write_object digest temporary destination (digest bytes) bytes raced f failure
        ≡ (f', answer tt)
      → get destination f'.objects ≡ some bytes
  unfolding write_object link_object
  write_object-there temporary destination bytes raced f f' (some failure) alone h =
      absurd (cc (ap (λ p. p.1) h))
  write_object-there temporary destination bytes none f f' none alone h =
      let own = ap (λ (p : Files × Answer (Unit {0})). get destination p.0.objects) h in
      sym own ∙ get-set_self destination bytes f.objects
  write_object-there temporary destination bytes (some other) f f' none alone h =
      elim (Bool-cases (same (digest other) (digest bytes))) [
        | inl agrees ↦
            let own = ap (λ (p : Files × Answer (Unit {0})). get destination p.0.objects) h in
            sym own
            ∙ get-set_self destination other f.objects
            ∙ ap some (alone other refl (same→eq (digest other) (digest bytes) agrees))
        | inr differs ↦ absurd (cc (ap (λ p. p.1) (rw differs at h)))
      ]

  create_object-there :
      (temporary destination : String) (bytes : Bytes) (around : Surroundings) (f f' : Files)
      → ((other : Bytes) → around.raced ≡ some other → digest other ≡ digest bytes → other ≡ bytes)
      → create_object digest temporary destination (digest bytes) bytes around f ≡ (f', answer tt)
      → get destination f'.objects ≡ some bytes
  unfolding create_object
  create_object-there temporary destination bytes around f f' alone h =
      elim (Bool-cases (has temporary f.temporaries)) [
        | inl taken ↦ absurd (cc (ap (λ p. p.1) (rw taken at h)))
        | inr fresh ↦
            write_object-there temporary destination bytes around.raced f f' around.failure alone
              (rw fresh at h)
      ]

  store_object-there :
      (temporary : String) (bytes : Bytes) (around : Surroundings) (f f' : Files)
      (found : Option Bytes)
      → get (object_name (digest bytes)) f.objects ≡ found
      → NoCollision around.raced bytes f
      → store_object digest temporary (digest bytes) bytes around f found ≡ (f', answer tt)
      → get (object_name (digest bytes)) f'.objects ≡ some bytes
  unfolding store_object
  store_object-there temporary bytes around f f' none here alone h =
      create_object-there temporary (object_name (digest bytes)) bytes around f f'
        (λ other e. alone other (inr e)) h
  store_object-there temporary bytes around f f' (some existing) here alone h =
      elim (Bool-cases (same (digest existing) (digest bytes))) [
        | inl agrees ↦
            let own =
              ap (λ (p : Files × Answer (Unit {0})). get (object_name (digest bytes)) p.0.objects)
                h in
            sym own
            ∙ here
            ∙ ap some (alone existing (inl here) (same→eq (digest existing) (digest bytes) agrees))
        | inr differs ↦ absurd (cc (ap (λ p. p.1) (rw differs at h)))
      ]

  -- What is put can be read back: if `put` answers an entry, reading that entry from the files it
  -- leaves gives the bytes that were put, whether the object was new, was there before, or was put in
  -- place by another process meanwhile, provided that no other bytes of the same digest are there.
  pub read-put :
      (temporary : String) (around : Surroundings) (path role : String) (bytes : Bytes)
      (f f' : Files) (entry : ArtifactEntry)
      → NoCollision around.raced bytes f
      → put digest temporary around path role bytes f ≡ (f', answer entry)
      → read digest f' entry ≡ answer bytes
  read-put temporary around path role bytes f f' entry alone h =
      let s = put-Stored temporary around path role bytes f f' entry h in
      subst (λ e. read digest f' e ≡ answer bytes) s.is_entry
        (read-Intact digest f' _ (record {
          path_is_valid = s.path_is_valid;
          digest_is_valid = s.digest_is_valid;
          bytes = bytes;
          there = store_object-there temporary bytes around f f' _ refl alone s.stored;
          of_size = refl;
          of_digest = refl;
        }))

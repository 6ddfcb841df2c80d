-- ===== src/Artifacts/Sparing.antt =====
-- What `put` of packages/runtime/src/artifact-store.ts leaves alone.
use parallelplay.Prelude.{
  remove, get-removed, get-remove_other, ◌≡◌, refl, sym, ap, ◌∙◌, false, Option, none, some, String,
  Map, get, set, has, get-set, get-set_other, same_sym_false, is_some, length, same, same→eq, ltb,
  Bool-cases, inl, inr,
}
use parallelplay.Model.{ArtifactEntry}
use parallelplay.Artifacts.Names.{valid_artifact_path, is_digest, is_role, object_name}
use parallelplay.Artifacts.Store.{
  Bytes, Files, WriteFailure, Surroundings, leave_behind, write_object, Answer, answer, raised,
  link_object, create_object, store_object, finish_put, put,
}

is_some-none {ℓ} : {A : Type ℓ} (o : Option A) → is_some o ≡ false → o ≡ none
is_some-none none h = refl
is_some-none (some a) h = cc

-- Every object stays as it is, the temporary files are those before, and where the writing of the
-- temporary file fails, those of other names are.
pub record Spares (temporary : String) (failure : Option WriteFailure) (f f' : Files) : Type 0 where
  pub objects : (k : String) (b : Bytes) → get k f.objects ≡ some b → get k f'.objects ≡ some b
  pub temporaries : failure ≡ none → (k : String) → get k f'.temporaries ≡ get k f.temporaries
  pub others : (k : String) → same temporary k ≡ false → get k f'.temporaries ≡ get k f.temporaries

Spares-refl :
    (temporary : String) (failure : Option WriteFailure) (f : Files) → Spares temporary failure f f
Spares-refl temporary failure f = record {
  objects = λ k b h. h;
  temporaries = λ e k. refl;
  others = λ k e. refl;
}

kept_objects :
    (destination : String) (b : Bytes) (m : Map Bytes)
    → get destination m ≡ none
    → (k : String) (c : Bytes) → get k m ≡ some c
    → get k (set destination b m) ≡ some c
kept_objects destination b m new k c h = elim (Bool-cases (same destination k)) [
  | inl hit ↦ absurd (cc (ap (λ i. get i m) (same→eq destination k hit), new, h))
  | inr miss ↦ rw (get-set destination k b m, miss) h
]

-- A temporary file that was not there before is gone after.
kept_temporaries :
    (temporary : String) (b : Bytes) (m : Map Bytes)
    → has temporary m ≡ false
    → (k : String) → get k (remove temporary (set temporary b m)) ≡ get k m
kept_temporaries temporary b m fresh k = elim (Bool-cases (same k temporary)) [
  | inl hit ↦
      rw (same→eq k temporary hit)
        (get-removed temporary (set temporary b m) ∙ sym (is_some-none (get temporary m) fresh))
  | inr miss ↦
      get-remove_other temporary k (set temporary b m) miss
      ∙ get-set_other temporary k b m (same_sym_false k temporary miss)
]

leave_behind-others :
    (temporary : String) (left_behind : Option Bytes) (m : Map Bytes) (k : String)
    → same temporary k ≡ false
    → get k (leave_behind temporary left_behind m) ≡ get k m
unfolding leave_behind
leave_behind-others temporary none m k miss = refl
leave_behind-others temporary (some bytes) m k miss = get-set_other temporary k bytes m miss

-- What linking puts in place is new.
spared :
    (temporary destination : String) (bytes placed : Bytes) (f : Files)
    → get destination f.objects ≡ none
    → has temporary f.temporaries ≡ false
    → Spares temporary none f (record {
      objects = set destination placed f.objects;
      temporaries = remove temporary (set temporary bytes f.temporaries);
    })
spared temporary destination bytes placed f new fresh =
    let same_files = kept_temporaries temporary bytes f.temporaries fresh in
    record {
      objects = kept_objects destination placed f.objects new;
      temporaries = λ e k. same_files k;
      others = λ k e. same_files k;
    }

module _ (digest : Bytes → String) where
  write_object-Spares :
      (temporary destination sha256 : String) (bytes : Bytes) (raced : Option Bytes) (f : Files)
      (failure : Option WriteFailure)
      → get destination f.objects ≡ none
      → has temporary f.temporaries ≡ false
      → Spares temporary failure f
          (write_object digest temporary destination sha256 bytes raced f failure).0
  unfolding write_object link_object
  write_object-Spares temporary destination sha256 bytes raced f (some failure) new fresh = record {
    objects = λ k b h. h;
    temporaries = λ e k. absurd (cc e);
    others = λ k miss. leave_behind-others temporary failure.left_behind f.temporaries k miss;
  }
  write_object-Spares temporary destination sha256 bytes none f none new fresh =
      spared temporary destination bytes bytes f new fresh
  write_object-Spares temporary destination sha256 bytes (some other) f none new fresh =
      spared temporary destination bytes other f new fresh

  create_object-Spares :
      (temporary destination sha256 : String) (bytes : Bytes) (around : Surroundings) (f : Files)
      → get destination f.objects ≡ none
      → Spares temporary around.failure f
          (create_object digest temporary destination sha256 bytes around f).0
  unfolding create_object
  create_object-Spares temporary destination sha256 bytes around f new =
      elim (Bool-cases (has temporary f.temporaries)) [
        | inl taken ↦ rw taken (Spares-refl temporary around.failure f)
        | inr fresh ↦ rw fresh (
            write_object-Spares temporary destination sha256 bytes around.raced f around.failure new
              fresh)
      ]

  store_object-Spares :
      (temporary sha256 : String) (bytes : Bytes) (around : Surroundings) (f : Files)
      (found : Option Bytes)
      → get (object_name sha256) f.objects ≡ found
      → Spares temporary around.failure f
          (store_object digest temporary sha256 bytes around f found).0
  unfolding store_object
  store_object-Spares temporary sha256 bytes around f none new =
      create_object-Spares temporary (object_name sha256) sha256 bytes around f new
  store_object-Spares temporary sha256 bytes around f (some b) here =
      Spares-refl temporary around.failure f

  finish_put-files :
      (entry : ArtifactEntry) (r : Files × Answer (Unit {0})) → (finish_put digest entry r).0 ≡ r.0
  unfolding finish_put
  finish_put-files entry (f, answer u) = refl
  finish_put-files entry (f, raised message) = refl

  -- A put never changes an object that is there, and touches no temporary file but its own, whether
  -- it answers or raises; and it leaves its own behind only where the very writing of it fails, which
  -- is not where its name is taken.
  pub put-Spares :
      (temporary : String) (around : Surroundings) (path role : String) (bytes : Bytes) (f : Files)
      → Spares temporary around.failure f (put digest temporary around path role bytes f).0
  unfolding put
  put-Spares temporary around path role bytes f = elim (Bool-cases (valid_artifact_path path)) [
    | inr bad ↦ rw bad (Spares-refl temporary around.failure f)
    | inl good ↦ elim (Bool-cases (is_role role)) [
      | inr bad ↦ rw (good, bad) (Spares-refl temporary around.failure f)
      | inl named ↦ elim (Bool-cases (ltb 268435456 (length bytes))) [
        | inl large ↦ rw (good, named, large) (Spares-refl temporary around.failure f)
        | inr fits ↦ elim (Bool-cases (is_digest (digest bytes))) [
          | inr bad ↦ rw (good, named, fits, bad) (Spares-refl temporary around.failure f)
          | inl shaped ↦
              rw (good, named, fits, shaped, finish_put-files)
                (store_object-Spares temporary (digest bytes) bytes around f _ refl)
        ]
      ]
    ]
  ]

-- ===== src/Repository/Frigate/Kept.antt =====
-- What failed or repeated calls of the Frigate integration keep (camadmiral/storage.py).
use text.Mathlib.TextPositions.{eq_refl}
use reefy_camadmiral.Prelude.{
  ℕ, ◌≡◌, refl, ◌∙◌, String, Bool, true, false, Option, none, some, List, [], ◌∷◌, any, find_row,
  update_rows, str_eq, arith, if◌then◌else◌, Bool-cases, Option-cases, inl, inr,
}
use reefy_camadmiral.Prelude.Rows.{find_row-update, find_row-append}
use reefy_camadmiral.Repository.Frigate.{Frigate, Retired, is_target}
use reefy_camadmiral.Repository.Frigate.Bindings.{
  Binding, Bindings, error, is_binding, frigate_binding, admits, attempted, new_binding,
  record_frigate_attempt, completed, complete_frigate_attempt, is_retired,
  remember_retired_frigate_camera, retired_frigate_camera,
}

any-find {ℓ} :
    {A : Type ℓ} (test : A → Bool) (rows : List A)
    → find_row test rows ≡ none
    → any test rows ≡ false
any-find test [] e = refl
any-find test (r ∷ rows) e = ground (arith, e, any-find test rows)

found_any {ℓ} :
    {A : Type ℓ} (test : A → Bool) (rows : List A) {r : A}
    → find_row test rows ≡ some r
    → any test rows ≡ true
found_any test [] e = cc
found_any test (x ∷ rows) {r} e = ground (arith, e, found_any test rows {r = r})

-- A camera that was retired from Frigate keeps the values to restore that were saved first; of
-- another camera of a known target they are saved.
pub retired-remember :
    (id key restore : String) (db : Frigate)
    → retired_frigate_camera id key (remember_retired_frigate_camera id key restore db).1
      ≡ elim (retired_frigate_camera id key db) [
        | none ↦ if any (is_target id) db.targets then some restore else none
        | some first ↦ some first
      ]
unfolding retired_frigate_camera remember_retired_frigate_camera
retired-remember id key restore db = go (find_row (is_retired id key) db.retired) refl
  where
    entry : Retired
    entry = record { retired_from = id; camera_key = key; restore_json = restore }

    go :
        (o : Option Retired)
        → find_row (is_retired id key) db.retired ≡ o
        → retired_frigate_camera id key (remember_retired_frigate_camera id key restore db).1
          ≡ elim (retired_frigate_camera id key db) [
            | none ↦ if any (is_target id) db.targets then some restore else none
            | some first ↦ some first
          ]
    go none e = ground (
      arith,
      e,
      any-find (is_retired id key) db.retired e,
      find_row-append (is_retired id key) db.retired entry e,
      eq_refl id,
      eq_refl key,
    )
    go (some r) e = ground (arith, e, found_any (is_retired id key) db.retired e)

-- What Frigate was last known to have for a camera.
unfoldable pub applied_of : Option Binding → Option String
applied_of none = none
applied_of (some b) = b.applied_hash

applied-update :
    (id camera : String) (change : Binding → Binding) (rows : List Binding)
    → ((b : Binding) → is_binding id camera (change b) ≡ is_binding id camera b)
    → ((b : Binding) → (change b).applied_hash ≡ b.applied_hash)
    → applied_of (find_row (is_binding id camera) (update_rows (is_binding id camera) change rows))
      ≡ applied_of (find_row (is_binding id camera) rows)
applied-update id camera change rows same hash =
    rw (find_row-update (is_binding id camera) (is_binding id camera) change same rows)
      (go (find_row (is_binding id camera) rows))
  where
    go :
        (o : Option Binding)
        → applied_of (elim o [
          | none ↦ none
          | some b ↦ some (if is_binding id camera b then change b else b)
        ])
          ≡ applied_of o
    go none = refl
    go (some b) =
        unfold applied_of in
        (elim (Bool-cases (is_binding id camera b)) [ inl e ↦ rw e (hash b) | inr e ↦ rw e refl ])

applied-attempt :
    (id camera key for_record for_detect hash : String) (now : ℕ) (db : Bindings)
    → applied_of (
        frigate_binding id camera
          (record_frigate_attempt id camera key for_record for_detect hash now db).1)
      ≡ applied_of (frigate_binding id camera db)
unfolding frigate_binding record_frigate_attempt
applied-attempt id camera key for_record for_detect hash now db =
    elim (Bool-cases (admits id camera key for_record for_detect db)) [
      | inr e ↦ rw e refl
      | inl e ↦ rw e (elim (Option-cases (find_row (is_binding id camera) db.rows)) [
        | inl f ↦
            let entry = new_binding id camera key for_record for_detect hash now in
            rw (any-find (is_binding id camera) db.rows f, f, frigate_binding)
              (rw
                (find_row-append (is_binding id camera) db.rows entry f, eq_refl id, eq_refl camera)
                (unfold applied_of in refl))
        | inr (b, f) ↦ rw (found_any (is_binding id camera) db.rows f) (
            applied-update id camera (attempted key for_record for_detect hash now) db.rows
              (λ b. refl) (λ b. refl))
      ])
    ]

applied_complete :
    (id camera word : String) (hash code : Option String) (now : ℕ) (db : Bindings)
    → str_eq word "applied" ≡ false
    → applied_of
        (frigate_binding id camera (complete_frigate_attempt id camera word hash code now db).1)
      ≡ applied_of (frigate_binding id camera db)
unfolding frigate_binding complete_frigate_attempt
applied_complete id camera word hash code now db h = rw h (elim (Bool-cases (str_eq word "error")) [
  | inl e ↦
      rw e
        (applied-update id camera (completed error hash code now) db.rows (λ b. refl) (λ b. refl))
  | inr e ↦ rw e refl
])

-- A synchronisation that does not end as applied keeps what Frigate was last known to have: the
-- attempt, whatever it asks for, and its end together.
pub failed_sync_keeps_applied :
    (id camera key for_record for_detect hash word : String) (done code : Option String)
    (now later : ℕ) (db : Bindings)
    → str_eq word "applied" ≡ false
    → applied_of (
        frigate_binding id camera
          (complete_frigate_attempt id camera word done code later
            (record_frigate_attempt id camera key for_record for_detect hash now db).1).1)
      ≡ applied_of (frigate_binding id camera db)
failed_sync_keeps_applied id camera key for_record for_detect hash word done code now later db h =
    applied_complete id camera word done code later
      (record_frigate_attempt id camera key for_record for_detect hash now db).1 h
    ∙ applied-attempt id camera key for_record for_detect hash now db

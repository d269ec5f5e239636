-- ===== src/Repository/Frigate/Aligned/Calls.antt =====
-- The selections of a Frigate target agree with it, whatever is called (camadmiral/storage.py): the
-- calls on selections, and any sequence of calls.
use reefy_camadmiral.Prelude.{
  ℕ, ◌≡◌, refl, sym, ◌∙◌, String, Bool, true, false, not, ◌&&◌, Option, none, some, List, [], ◌∷◌,
  any, keep, find_row, str_eq, eq_iff, arith, Bool-cases, inl, inr,
}
use reefy_camadmiral.Repository.Frigate.{
  Target, Selection, Frigate, AddressMode, ConnectionStatus, is_target, is_selection, mode_of,
  save_frigate_target, set_frigate_target_address_mode, chosen_mode, new_selection, select_with,
  select_mode, select_frigate_camera, deselect_frigate_camera, are_dimensions,
  set_frigate_detection_resolution, set_frigate_selection_error, remove_frigate_target, checked,
  record_check, status_of, record_frigate_target_check,
}
use reefy_camadmiral.Repository.Frigate.Bindings.{
  remember_retired_frigate_camera, forget_retired_frigate_camera, is_retired,
}
use reefy_camadmiral.Repository.Frigate.Aligned.{
  admitted, has_mode, agrees, IsAligned, All-change, All-keep, All-map, All-snoc, agrees-update,
  save-IsAligned, same_mode_refl, set_mode-IsAligned,
}

find-any :
    (id : String) (targets : List Target)
    → any (is_target id) targets ≡ true
    → (find_row (is_target id) targets ≡ none)
    → true ≡ false
find-any id [] h e = cc
find-any id (t ∷ targets) h e = ground (arith, h, e, find-any id targets)

agrees-chosen :
    (targets : List Target) (s : Selection) (asked : AddressMode)
    → any (is_target s.selected_for) targets ≡ true
    → agrees targets (record s {
      selected_mode = chosen_mode (find_row (is_target s.selected_for) targets) asked;
    })
      ≡ true
unfolding agrees
agrees-chosen targets s asked h = go (find_row (is_target s.selected_for) targets) refl
  where
    suits :
        (m : Option AddressMode) → admitted m (elim m [ none ↦ asked | some mode ↦ mode ]) ≡ true
    suits none = refl
    suits (some n) = same_mode_refl n

    go :
        (o : Option Target)
        → find_row (is_target s.selected_for) targets ≡ o
        → has_mode
            (chosen_mode (find_row (is_target s.selected_for) targets) asked)
            (find_row (is_target s.selected_for) targets)
          ≡ true
    go none e = absurd (ground (arith, find-any s.selected_for targets h e))
    go (some t) e = rw e (suits t.address_mode)

select_with-IsAligned :
    (id camera : String) (asked : AddressMode) (now : ℕ) (db : Frigate)
    → IsAligned db
    → IsAligned
        (select_with id camera (chosen_mode (find_row (is_target id) db.targets) asked) now db).1
unfolding select_with IsAligned
select_with-IsAligned id camera asked now db h =
    elim (Bool-cases (any (is_target id) db.targets && any (λ c. str_eq c camera) db.cameras)) [
      | inr e ↦ rw e h
      | inl e ↦ rw e (elim (Bool-cases (any (is_selection id camera) db.selections)) [
        | inl f ↦ rw f (
            All-change _ _ (is_selection id camera)
              (λ s. record s {
                selected_mode = chosen_mode (find_row (is_target id) db.targets) asked;
              })
              db.selections (λ s g k. chosen s g (ground (arith, e))) (λ s g k. k) h)
        | inr f ↦ rw f (
            All-snoc _ db.selections
              (new_selection id camera (chosen_mode (find_row (is_target id) db.targets) asked) now)
              h
              (agrees-chosen db.targets (new_selection id camera asked now) asked
                (ground (arith, e))))
      ])
    ]
  where
    chosen :
        (s : Selection)
        → is_selection id camera s ≡ true
        → any (is_target id) db.targets ≡ true
        → agrees db.targets
            (record s { selected_mode = chosen_mode (find_row (is_target id) db.targets) asked })
          ≡ true
    chosen s g k =
        let same : s.selected_for ≡ id = ground (arith, g, eq_iff s.selected_for id) in
        rw (sym same) (agrees-chosen db.targets s asked (rw (sym same) at k))

select-IsAligned :
    (id camera word : String) (now : ℕ) (db : Frigate)
    → IsAligned db
    → IsAligned (select_frigate_camera id camera word now db).1
unfolding select_frigate_camera
select-IsAligned id camera word now db h = go (mode_of word)
  where
    go : (m : Option AddressMode) → IsAligned (select_mode id camera now m db).1
    go none = h
    go (some asked) = select_with-IsAligned id camera asked now db h

remove-IsAligned :
    (id : String) (db : Frigate) → IsAligned db → IsAligned (remove_frigate_target id db).1
unfolding remove_frigate_target IsAligned agrees
remove-IsAligned id db h =
    All-keep _ _ (λ s. not (str_eq s.selected_for id)) db.selections
      (λ s e k. rw (kept s.selected_for db.targets (ground (arith, e))) k) h
  where
    kept :
        (other : String) (targets : List Target)
        → str_eq other id ≡ false
        → find_row (is_target other) (keep (λ t. not (is_target id t)) targets)
          ≡ find_row (is_target other) targets
    kept other [] e = refl
    kept other (t ∷ targets) e = ground (
      arith,
      e,
      kept other targets e,
      eq_iff t.target_id id,
      eq_iff t.target_id other,
      eq_iff other id,
    )

check-IsAligned :
    (id word : String) (code : Option String) (restart : Option Bool) (now : ℕ) (db : Frigate)
    → IsAligned db
    → IsAligned (record_frigate_target_check id word code restart now db).1
unfolding record_frigate_target_check IsAligned
check-IsAligned id word code restart now db h = go (status_of word)
  where
    ids :
        (status : ConnectionStatus) (r : Option Bool) (t : Target)
        → (checked status code r now t).target_id ≡ t.target_id
    ids status none t = refl
    ids status (some b) t = refl

    modes :
        (status : ConnectionStatus) (r : Option Bool) (t : Target)
        → (checked status code r now t).address_mode ≡ t.address_mode
    modes status none t = refl
    modes status (some b) t = refl

    go : (m : Option ConnectionStatus) → IsAligned (record_check id code restart now m db).1
    go none = h
    go (some status) =
        All-map _ _ db.selections
          (λ s k.
            agrees-update (is_target id) (checked status code restart now) db.targets s
              (ids status restart) (modes status restart)
            ∙ k)
          h

-- A call on the targets, the selections or the retired cameras.
pub data Step : Frigate → Frigate → Type 0 where
  saves :
      (id name url : String) (now : ℕ) (db : Frigate)
      → Step db (save_frigate_target id name url now db).1
  sets_mode :
      (id word : String) (now : ℕ) (db : Frigate)
      → Step db (set_frigate_target_address_mode id word now db).1
  selects :
      (id camera word : String) (now : ℕ) (db : Frigate)
      → Step db (select_frigate_camera id camera word now db).1
  deselects : (id camera : String) (db : Frigate) → Step db (deselect_frigate_camera id camera db).1
  sets_resolution :
      (id camera : String) (width height : Option ℕ) (db : Frigate)
      → Step db (set_frigate_detection_resolution id camera width height db).1
  sets_error :
      (id camera : String) (code : Option String) (db : Frigate)
      → Step db (set_frigate_selection_error id camera code db).1
  removes : (id : String) (db : Frigate) → Step db (remove_frigate_target id db).1
  checks :
      (id word : String) (code : Option String) (restart : Option Bool) (now : ℕ) (db : Frigate)
      → Step db (record_frigate_target_check id word code restart now db).1
  remembers :
      (id key restore : String) (db : Frigate)
      → Step db (remember_retired_frigate_camera id key restore db).1
  forgets : (id key : String) (db : Frigate) → Step db (forget_retired_frigate_camera id key db).1

-- Any sequence of calls.
pub data Reach (start : Frigate) : Frigate → Type 0 where
  here : Reach start start
  next : {a b : Frigate} → Reach start a → Step a b → Reach start b

Step-IsAligned : {a b : Frigate} → Step a b → IsAligned a → IsAligned b
unfolding IsAligned set_frigate_detection_resolution set_frigate_selection_error
    deselect_frigate_camera remember_retired_frigate_camera forget_retired_frigate_camera agrees
Step-IsAligned (saves id name url now db) h = save-IsAligned id name url now db h
Step-IsAligned (sets_mode id word now db) h = set_mode-IsAligned id word now db h
Step-IsAligned (selects id camera word now db) h = select-IsAligned id camera word now db h
Step-IsAligned (deselects id camera db) h =
    All-keep _ _ (λ s. not (is_selection id camera s)) db.selections (λ s e k. k) h
Step-IsAligned (sets_resolution id camera width height db) h =
    elim (Bool-cases (are_dimensions width height)) [
      | inl e ↦ rw e (
          All-change _ _ (is_selection id camera)
            (λ s. record s { detect_width = width; detect_height = height }) db.selections
            (λ s e k. k) (λ s e k. k) h)
      | inr e ↦ rw e h
    ]
Step-IsAligned (sets_error id camera code db) h =
    All-change _ _ (is_selection id camera) (λ s. record s { sync_error = code }) db.selections
      (λ s e k. k) (λ s e k. k) h
Step-IsAligned (removes id db) h = remove-IsAligned id db h
Step-IsAligned (checks id word code restart now db) h =
    check-IsAligned id word code restart now db h
Step-IsAligned (remembers id key restore db) h =
    elim (Bool-cases (any (is_retired id key) db.retired)) [
      | inl e ↦ rw e h
      | inr e ↦
          rw e
            (elim (Bool-cases (any (is_target id) db.targets)) [ inl f ↦ rw f h | inr f ↦ rw f h ])
    ]
Step-IsAligned (forgets id key db) h = h

-- Whatever is called, every selection is of a target that is there and has the target's address
-- mode where that has one, if it was so before.
pub Reach-IsAligned : {a b : Frigate} → Reach a b → IsAligned a → IsAligned b
Reach-IsAligned here h = h
Reach-IsAligned (next r s) h = Step-IsAligned s (Reach-IsAligned r h)

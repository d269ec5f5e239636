-- ===== src/Repository/Frigate/Aligned.antt =====
-- The selections of a Frigate target agree with it, whatever is called (camadmiral/storage.py).
pub mod Calls
use reefy_camadmiral.Prelude.{
  ℕ, ◌≡◌, refl, sym, ◌∙◌, String, Bool, true, false, not, ◌&&◌, ◌||◌, Option, none, some, List, [],
  ◌∷◌, ◌++◌, any, All, keep, find_row, update_rows, str_eq, eq_iff, arith, if◌then◌else◌,
  Bool-cases, Option-cases, inl, inr,
}
use reefy_camadmiral.Prelude.Rows.{find_row-update, find_row-append_some, find_row-test}
use reefy_camadmiral.Effects.{Outcome, raised, returned, Call}
use reefy_camadmiral.Repository.Frigate.{
  Target, Selection, Retired, Frigate, AddressMode, lan, localhost, ConnectionStatus, is_target,
  is_selection, same_mode, mode_of, gives, insert_target, overwrite_target, save_frigate_target,
  with_mode, set_mode, set_mode_found, set_frigate_target_address_mode, chosen_mode, new_selection,
  select_with, select_mode, select_frigate_camera, deselect_frigate_camera, are_dimensions,
  set_frigate_detection_resolution, set_frigate_selection_error, remove_frigate_target, checked,
  record_check, status_of, record_frigate_target_check,
}

-- A target without a mode admits both.
abbrev pub admitted : Option AddressMode → AddressMode → Bool
admitted none mode = true
admitted (some m) mode = same_mode m mode

abbrev pub has_mode : AddressMode → Option Target → Bool
has_mode mode none = false
has_mode mode (some t) = admitted t.address_mode mode

-- A selection is of a target that is there, and has the target's mode where that has one.
unfoldable pub agrees : List Target → Selection → Bool
agrees targets s = has_mode s.selected_mode (find_row (is_target s.selected_for) targets)

unfoldable pub IsAligned : Frigate → Type 0
IsAligned db = All (λ s. agrees db.targets s ≡ true) db.selections

pub All-change :
    (P Q : Selection → Type 0) (which : Selection → Bool) (change : Selection → Selection)
    (rows : List Selection)
    → ((s : Selection) → which s ≡ true → P s → Q (change s))
    → ((s : Selection) → which s ≡ false → P s → Q s)
    → All P rows
    → All Q (update_rows which change rows)
All-change P Q which change [] f g h = tt
All-change P Q which change (s ∷ rows) f g h = elim (Bool-cases (which s)) [
  | inl e ↦ rw e (f s e h.0, All-change P Q which change rows f g h.1)
  | inr e ↦ rw e (g s e h.0, All-change P Q which change rows f g h.1)
]

pub All-keep :
    (P Q : Selection → Type 0) (test : Selection → Bool) (rows : List Selection)
    → ((s : Selection) → test s ≡ true → P s → Q s)
    → All P rows
    → All Q (keep test rows)
All-keep P Q test [] f h = tt
All-keep P Q test (s ∷ rows) f h = elim (Bool-cases (test s)) [
  | inl e ↦ rw e (f s e h.0, All-keep P Q test rows f h.1)
  | inr e ↦ rw e (All-keep P Q test rows f h.1)
]

pub All-map :
    (P Q : Selection → Type 0) (rows : List Selection)
    → ((s : Selection) → P s → Q s)
    → All P rows
    → All Q rows
All-map P Q [] f h = tt
All-map P Q (s ∷ rows) f h = (f s h.0, All-map P Q rows f h.1)

pub All-snoc :
    (P : Selection → Type 0) (rows : List Selection) (s : Selection)
    → All P rows
    → P s
    → All P (rows ++ s ∷ [])
All-snoc P [] s h k = (k, tt)
All-snoc P (r ∷ rows) s h k = (h.0, All-snoc P rows s h.1 k)

-- Changes of targets that leave their identifiers and modes.
pub agrees-update :
    (which : Target → Bool) (change : Target → Target) (targets : List Target) (s : Selection)
    → ((t : Target) → (change t).target_id ≡ t.target_id)
    → ((t : Target) → (change t).address_mode ≡ t.address_mode)
    → agrees (update_rows which change targets) s ≡ agrees targets s
unfolding agrees
agrees-update which change targets s ids modes =
    rw (find_row-update (is_target s.selected_for) which change (λ t. rw (ids t) refl) targets)
      (go (find_row (is_target s.selected_for) targets))
  where
    go :
        (o : Option Target)
        → has_mode s.selected_mode
            (elim o [ none ↦ none | some t ↦ some (if which t then change t else t) ])
          ≡ has_mode s.selected_mode o
    go none = refl
    go (some t) = elim (Bool-cases (which t)) [
      | inl e ↦ rw e (rw (modes t) refl)
      | inr e ↦ rw e refl
    ]

pub agrees-append :
    (targets : List Target) (t : Target) (s : Selection)
    → agrees targets s ≡ true
    → agrees (targets ++ t ∷ []) s ≡ true
unfolding agrees
agrees-append targets t s h = go (find_row (is_target s.selected_for) targets) refl
  where
    go :
        (o : Option Target)
        → find_row (is_target s.selected_for) targets ≡ o
        → agrees (targets ++ t ∷ []) s ≡ true
    go none e = absurd (ground (arith, rw e at h))
    go (some found) e =
        rw (agrees, find_row-append_some (is_target s.selected_for) targets t e) (rw e at h)

pub save-IsAligned :
    (id name url : String) (now : ℕ) (db : Frigate)
    → IsAligned db
    → IsAligned (save_frigate_target id name url now db).1
unfolding save_frigate_target IsAligned
save-IsAligned id name url now db h =
    elim (Bool-cases (any (λ t. str_eq t.api_url url && not (is_target id t)) db.targets)) [
      | inl e ↦ rw e h
      | inr e ↦ rw e (elim (Bool-cases (any (is_target id) db.targets)) [
        | inl f ↦ rw f (
            All-map _ _ db.selections
              (λ s k.
                agrees-update (is_target id) (overwrite_target name url now) db.targets s
                  (λ t. ids t) (λ t. modes t)
                ∙ k)
              h)
        | inr f ↦ rw f (
            All-map _ _ db.selections
              (λ s k. agrees-append db.targets (insert_target id name url now) s k) h)
      ])
    ]
  where
    ids : (t : Target) → (overwrite_target name url now t).target_id ≡ t.target_id
    ids t = unfold overwrite_target in ground arith

    modes : (t : Target) → (overwrite_target name url now t).address_mode ≡ t.address_mode
    modes t = unfold overwrite_target in ground arith

pub same_mode_refl : (m : AddressMode) → same_mode m m ≡ true
same_mode_refl lan = refl
same_mode_refl localhost = refl

-- What a selection finds after its target, or another one, got a new mode.
found_mode :
    (id : String) (mode : AddressMode) (now : ℕ) (targets : List Target) (s : Selection) (b : Bool)
    → str_eq s.selected_for id ≡ b
    → find_row (is_target s.selected_for) (update_rows (is_target id) (with_mode mode now) targets)
      ≡ elim (find_row (is_target s.selected_for) targets) [
        | none ↦ none
        | some t ↦ some (if b then with_mode mode now t else t)
      ]
found_mode id mode now targets s b f =
    find_row-update (is_target s.selected_for) (is_target id) (with_mode mode now) (λ t. refl)
      targets
    ∙ go (find_row (is_target s.selected_for) targets) refl
  where
    owns : (t : Target) → is_target s.selected_for t ≡ true → is_target id t ≡ b
    owns t g = ground (
      arith,
      g,
      f,
      eq_iff t.target_id s.selected_for,
      eq_iff s.selected_for id,
      eq_iff t.target_id id,
    )

    go :
        (o : Option Target)
        → find_row (is_target s.selected_for) targets ≡ o
        → Path
            (Option Target)
            (elim o [
              | none ↦ none
              | some t ↦ some (if is_target id t then with_mode mode now t else t)
            ])
            (elim o [ none ↦ none | some t ↦ some (if b then with_mode mode now t else t) ])
    go none e = refl
    go (some t) e = rw (owns t (find_row-test (is_target s.selected_for) targets e)) refl

agrees-mode :
    (id : String) (mode : AddressMode) (now : ℕ) (targets : List Target) (s : Selection)
    → agrees targets s ≡ true
    → str_eq s.selected_for id ≡ true
    → agrees
        (update_rows (is_target id) (with_mode mode now) targets)
        (record s { selected_mode = mode })
      ≡ true
unfolding agrees
agrees-mode id mode now targets s h f =
    rw (found_mode id mode now targets s true f) (ground (arith, h, same_mode_refl mode))

agrees-other :
    (id : String) (mode : AddressMode) (now : ℕ) (targets : List Target) (s : Selection)
    → agrees targets s ≡ true
    → str_eq s.selected_for id ≡ false
    → agrees (update_rows (is_target id) (with_mode mode now) targets) s ≡ true
unfolding agrees
agrees-other id mode now targets s h f =
    rw (found_mode id mode now targets s false f) (ground (arith, h))

pub set_mode-IsAligned :
    (id word : String) (now : ℕ) (db : Frigate)
    → IsAligned db
    → IsAligned (set_frigate_target_address_mode id word now db).1
unfolding set_frigate_target_address_mode IsAligned
set_mode-IsAligned id word now db h = go (mode_of word)
  where
    found : (mode : AddressMode) (o : Option Target) → IsAligned (set_mode_found id mode now o db).1
    found mode none = h
    found mode (some t) =
        All-change _ _ (λ s. str_eq s.selected_for id) (λ s. record s { selected_mode = mode })
          db.selections (λ s f k. agrees-mode id mode now db.targets s k f)
          (λ s f k. agrees-other id mode now db.targets s k f) h

    go : (m : Option AddressMode) → IsAligned (set_mode id now m db).1
    go none = h
    go (some mode) = found mode (find_row (is_target id) db.targets)

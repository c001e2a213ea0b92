-- ===== src/Site/Apidocs.antt =====
-- `show` and `updateTabs` of docs/apidocs/zookeeper-server/script.js (zookeeper-jute has the same
-- file): the table of methods of a page.
use sd.Common.{
  ℕ, zero, suc, ◌+◌, ◌/◌, ◌%◌, ◌≡◌, refl, ap, Bool, true, false, ◌&&◌, List, [], ◌∷◌, ◌++◌, map,
  eqb, if◌then◌else◌, Bool-cases, inl, inr, has, nat_eq, text_eq, ◌==◌, eqb_iff, beq_refl,
}
use sd.Proto.Text.{Text, codes}
use sd.Proto.Numbers.{to_string}
use sd.Proto.Arrays.Sets.{NoRepeats}

-- A method's row, with the bits that `methods` has for it, and a tab with its entry of `tabs`.
pub record Row : Type 0 where
  pub bits : ℕ
  pub display : Text
  pub class_name : Text

pub record Tab : Type 0 where
  pub value : ℕ
  pub label : Text
  pub class_name : Text
  pub inner_html : Text

-- The class names that a page sets.
pub record Styles : Type 0 where
  pub alt_color : Text
  pub row_color : Text
  pub table_tab : Text
  pub active_table_tab : Text

-- `(a & b) != 0`, for at most `fuel` bits.
bits_meet : ℕ → ℕ → ℕ → Bool
bits_meet zero a b = false
bits_meet (suc f) a b =
    let rest = bits_meet f (a / 2) (b / 2) in if eqb (a % 2) 1 && eqb (b % 2) 1 then true else rest

-- Numbers have 32 bits under `&`.
pub is_shown : ℕ → Row → Bool
unfolding bits_meet
is_shown type row = bits_meet 32 row.bits type

module _ (styles : Styles) where
  abbrev pub stripe : ℕ → Text
  stripe count = if eqb (count % 2) 1 then styles.row_color else styles.alt_color

  -- The loop of `show`.
  pub show_rows : ℕ → ℕ → List Row → List Row
  unfolding is_shown
  show_rows type count [] = []
  show_rows type count (row ∷ rows) =
      if is_shown type row
      then record row { display = []; class_name = stripe count } ∷ show_rows type (count + 1) rows
      else record row { display = codes "none" } ∷ show_rows type count rows

  pub update_tab : ℕ → Tab → Tab
  update_tab type tab =
      if eqb tab.value type
      then record tab { class_name = styles.active_table_tab; inner_html = tab.label }
      else record tab {
        class_name = styles.table_tab;
        inner_html =
            codes "<a href=\"javascript:show("
            ++ (to_string 10 tab.value ++ (codes ");\">" ++ (tab.label ++ codes "</a>")));
      }

  pub update_tabs : ℕ → List Tab → List Tab
  unfolding update_tab
  update_tabs type tabs = map (update_tab type) tabs

  unfoldable pub show : ℕ → List Row → List Tab → List Row × List Tab
  unfolding show_rows update_tabs
  show type rows tabs = (show_rows type 0 rows, update_tabs type tabs)

-- The rows that a page displays, and their classes.
abbrev pub displayed : List Row → List Row
displayed [] = []
displayed (row ∷ rows) = if row.display == [] then row ∷ displayed rows else displayed rows

abbrev pub chosen : ℕ → List Row → List Row
chosen type [] = []
chosen type (row ∷ rows) = if is_shown type row then row ∷ chosen type rows else chosen type rows

-- Rows with the colours of a striped table, from an index on.
abbrev pub striped : Styles → ℕ → List Row → List Row
striped styles i [] = []
striped styles i (row ∷ rows) =
    record row { display = []; class_name = stripe styles i } ∷ striped styles (i + 1) rows

abbrev pub tab_values : List Tab → List ℕ
tab_values tabs = map (λ t. t.value) tabs

abbrev pub active : Styles → List Tab → List ℕ
active styles [] = []
active styles (tab ∷ tabs) =
    if tab.class_name == styles.active_table_tab
    then tab.value ∷ active styles tabs
    else active styles tabs

displayed-show_rows :
    (styles : Styles) (type count : ℕ) (rows : List Row)
    → displayed (show_rows styles type count rows) ≡ striped styles count (chosen type rows)
unfolding show_rows
displayed-show_rows styles type count [] = refl
displayed-show_rows styles type count (row ∷ rows) = elim (Bool-cases (is_shown type row)) [
  | inl t ↦ simp (t, displayed-show_rows styles type (count + 1) rows)
  | inr t ↦ simp (t, displayed-show_rows styles type count rows)
]

active-none :
    (styles : Styles) (type : ℕ) (tabs : List Tab)
    → (styles.table_tab == styles.active_table_tab) ≡ false
    → has type (tab_values tabs) ≡ false
    → active styles (update_tabs styles type tabs) ≡ []
unfolding update_tabs update_tab
active-none styles type [] d h = refl
active-none styles type (tab ∷ tabs) d h = elim (Bool-cases (eqb tab.value type)) [
  | inl t ↦ absurd (let u = simp t at h in cc)
  | inr t ↦ simp (t, d) (active-none styles type tabs d (simp t at h))
]

active-one :
    (styles : Styles) (type : ℕ) (tabs : List Tab)
    → (styles.table_tab == styles.active_table_tab) ≡ false
    → NoRepeats (tab_values tabs)
    → has type (tab_values tabs) ≡ true
    → active styles (update_tabs styles type tabs) ≡ type ∷ []
unfolding update_tabs update_tab
active-one styles type [] d n h = cc
active-one styles type (tab ∷ tabs) d n h = elim (Bool-cases (eqb tab.value type)) [
  | inl t ↦
      let u = (eqb_iff tab.value type).0 t in
      simp (t, beq_refl styles.active_table_tab, active-none styles type tabs d (rw u at n.0))
        (ap (λ v. v ∷ []) u)
  | inr t ↦ simp (t, d) (active-one styles type tabs d n.1 (simp t at h))
]

-- `show` displays just the rows whose bits meet the type, coloured in turn from the first one
-- displayed; with different values of the tabs, one of them the type, and different classes, the
-- tab of the type is the only active one.
pub show_lem :
    (styles : Styles) (type : ℕ) (rows : List Row) (tabs : List Tab)
    → (styles.table_tab == styles.active_table_tab) ≡ false
    → NoRepeats (tab_values tabs)
    → has type (tab_values tabs) ≡ true
    → (displayed (show styles type rows tabs).0 ≡ striped styles 0 (chosen type rows))
      × (active styles (show styles type rows tabs).1 ≡ type ∷ [])
unfolding show
show_lem styles type rows tabs d n h =
    (displayed-show_rows styles type 0 rows, active-one styles type tabs d n h)

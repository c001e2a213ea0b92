-- ===== src/Site/Menu.antt =====
-- `SwitchMenu` of docs/skin/menu.js and of docs/skin/getMenu.js, on the group and the title that
-- `getElementById` finds.
use sd.Common.{
  ◌≡◌, refl, ◌&&◌, [], ◌++◌, if◌then◌else◌, Bool-cases, inl, inr, text_eq, nat_eq, ◌==◌,
}
use sd.Proto.Text.{Text, codes, is_prefix}

-- `el.style.display`, `title.className` and `title.style.backgroundImage`.
pub record Group : Type 0 where
  pub display : Text
  pub title_class : Text
  pub background_image : Text

abbrev pub show_first : Text → Group → Group
show_first name g =
    if is_prefix (codes "_selected_") name && g.display == []
    then record g { display = codes "block"; title_class = codes "pagegroupselected" }
    else g

abbrev pub toggle : Group → Group
toggle g =
    if g.display == codes "block"
    then record g { display = codes "none"; title_class = codes "pagegroup" }
    else record g { display = codes "block"; title_class = codes "pagegroupopen" }

unfoldable pub switch_menu : Text → Group → Group
switch_menu name g = toggle (show_first name g)

-- The function of getMenu.js.
unfoldable pub switch_image : Text → Group → Group
switch_image path g =
    if g.display == codes "block"
    then record g {
      background_image = codes "url(\"" ++ (path ++ codes "chapter.gif\")");
      display = codes "none";
    }
    else record g {
      background_image = codes "url(\"" ++ (path ++ codes "chapter_open.gif\")");
      display = codes "block";
    }

-- The two states that a click leaves.
abbrev opened : Group → Group
opened g = record g { display = codes "block"; title_class = codes "pagegroupopen" }

abbrev closed : Group → Group
closed g = record g { display = codes "none"; title_class = codes "pagegroup" }

switch_menu-opened : (name : Text) (g : Group) → switch_menu name (opened g) ≡ closed g
unfolding switch_menu
switch_menu-opened name g = elim (Bool-cases (is_prefix (codes "_selected_") name)) [
  | inl t ↦ simp t
  | inr t ↦ simp t
]

switch_menu-closed : (name : Text) (g : Group) → switch_menu name (closed g) ≡ opened g
unfolding switch_menu
switch_menu-closed name g = elim (Bool-cases (is_prefix (codes "_selected_") name)) [
  | inl t ↦ simp t
  | inr t ↦ simp t
]

-- Whatever state a group is in first, from its first click on two clicks bring it back: the group
-- and its title change together.
pub switch_menu-again :
    (name : Text) (g : Group)
    → switch_menu name (switch_menu name (switch_menu name g)) ≡ switch_menu name g
unfolding switch_menu
switch_menu-again name g = elim (Bool-cases ((show_first name g).display == codes "block")) [
  | inl t ↦
      let u : switch_menu name g ≡ closed (show_first name g) = simp t in
      rw (u, switch_menu-closed, switch_menu-opened) refl
  | inr t ↦
      let u : switch_menu name g ≡ opened (show_first name g) = simp t in
      rw (u, switch_menu-opened, switch_menu-closed) refl
]

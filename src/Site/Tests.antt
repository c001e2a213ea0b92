-- ===== src/Site/Tests.antt =====
-- The theorems on the scripts of the site, on concrete pages.
use sd.Common.{List, [], ◌∷◌, text_eq}
use sd.Proto.Text.{codes}
use sd.Site.Menu.{Group}
use sd.Site.Apidocs.{Row, Tab, Styles}

abbrev selected : Group
selected = record { display = []; title_class = codes "pagegroup"; background_image = [] }

abbrev styles : Styles
styles = record {
  alt_color = codes "altColor";
  row_color = codes "rowColor";
  table_tab = codes "tableTab";
  active_table_tab = codes "activeTableTab";
}

abbrev rows : List Row
rows =
    record { bits = 6; display = []; class_name = [] }
    ∷ (record { bits = 9; display = []; class_name = [] }
        ∷ (record { bits = 10; display = []; class_name = [] } ∷ []))

abbrev tabs : List Tab
tabs =
    record { value = 65535; label = codes "All"; class_name = []; inner_html = [] }
    ∷ (record { value = 2; label = codes "Static"; class_name = []; inner_html = [] } ∷ [])

-- ===== src/Proto/Tests.antt =====
-- Runs of the models of docs/skin/prototype.js on concrete inputs, and the theorems applied to
-- such inputs.
use Prim.Native.String.{String}
use mathlib.Core.List.{flatten}
use sd.Common.{
  ℕ, ◌+◌, ◌≤◌, ◌<◌, ◌≡◌, refl, ap, sym, Bool, false, Option, none, some, List, [], ◌∷◌, Outcome, ok,
  err, ◌>>=◌, All, length, eqb, ltb, if◌then◌else◌, arith, nat_eq, text_eq, string_eq, maybe,
}
use sd.Proto.Text.{Text, codes}
use sd.Proto.Enumerable.{all, any, collect, find_all, each_slice, slices, plain}
use sd.Proto.Enumerable.Groups.{map_from, each_slice-covers}
use sd.Proto.Strings.{Match, Pattern, Replacement, gsub_loop, escape_html, unescape_html}
use sd.Proto.Strings.Html.{unescape_html-escape_html}
use sd.Proto.Strings.Gsub.{Indexed, gsub_ends}
use sd.Proto.Hash.{Properties, own, get, unset, merge}
use sd.Proto.Hash.Laws.{Distinct, get-unset, merge_lem}
use sd.Proto.Hash.Query.{to_query_string}
use sd.Proto.Hash.Query.Params.{to_query_params}
use sd.Proto.Hash.Query.RoundTrip.{Sendable, received, texts, to_query_params-to_query_string}
use sd.Proto.Arrays.Iteration.{map_array, filter, some_of, every, dense, arrays-Enumerable}
use sd.Proto.Executer.{Executer, Callback, stop}

-- Numbers, and an iterator that throws at 7.
abbrev numbers : List ℕ
numbers = 3 ∷ 1 ∷ 4 ∷ 1 ∷ 5 ∷ []

abbrev small : ℕ → Bool
small n = ltb n 4

abbrev below_7 : ℕ → ℕ → Outcome String ℕ
below_7 v i = if eqb v 7 then err "seven" else ok v

each_slice-covers_example :
    (ss : List (List ℕ)) × (each_slice {E = String} 2 (λ s i. ok (length s)) numbers
      ≡ ok (slices (map_from (λ s i. length s) 0 ss)))
    × (flatten ss ≡ numbers)
    × All (λ s. (0 < length s) × (length s ≤ 2)) ss
each_slice-covers_example = each_slice-covers 2 (λ s i. length s) numbers (omega arith)

arrays-Enumerable_example :
    (map_array below_7 (dense numbers) ≡ (collect (plain below_7) numbers >>= λ bs. ok (dense bs)))
    × (filter small below_7 (dense numbers) ≡ find_all small (plain below_7) numbers)
    × (some_of small below_7 (dense numbers) ≡ any small (plain below_7) numbers)
    × (every small below_7 (dense numbers) ≡ all small (plain below_7) numbers)
arrays-Enumerable_example = arrays-Enumerable small below_7 numbers

-- A pattern that matches any one code unit, and a replacement that counts its calls.
abbrev one_unit : Pattern (Unit {0})
one_unit [] = none
one_unit (c ∷ s) = some (record { index = some 0; text = c ∷ []; groups = tt })

abbrev counting : Replacement ℕ (Unit {0})
counting n m = (n + 1, m.text)

one_unit-Indexed : Indexed one_unit
one_unit-Indexed [] m e = cc
one_unit-Indexed (c ∷ s) m e =
    let q : record { index = some 0; text = c ∷ []; groups = tt } ≡ m = cc in
    (0, ap (λ (m : Match (Unit {0})). m.index) (sym q))

gsub_ends_example :
    (gsub_loop one_unit (λ n m. (n + 1, codes "xy")) (length (codes "abc")) 0 (codes "abc") []).2
    ≡ []
gsub_ends_example = gsub_ends one_unit one_unit-Indexed (λ n m. (n + 1, codes "xy")) 0 (codes "abc")

unescape_html-escape_html_example :
    unescape_html (λ t. t) (escape_html (codes "a<b> & &amp;")) ≡ codes "a<b> & &amp;"
unescape_html-escape_html_example =
    unescape_html-escape_html (λ t. t) (λ t h. refl) (codes "a<b> & &amp;")

-- An object that inherits a value under 9.
abbrev inherits : ℕ → Option ℕ
inherits k = if eqb k 9 then some 7 else none

abbrev two : Properties ℕ ℕ
two = (1, 10) ∷ (2, 20) ∷ []

two-Distinct : Distinct two
unfolding own
two-Distinct = (refl, (refl, tt))

get-unset_example :
    Distinct (unset inherits 1 two).0
    × (get inherits 2 (unset inherits 1 two).0 ≡ (if eqb 1 2 then none else get inherits 2 two))
    × ((unset inherits 1 two).1 ≡ maybe (own 1 two) (inherits 1) some)
get-unset_example = get-unset inherits 1 2 two two-Distinct

merge_lem_example :
    Distinct (merge two two)
    × ((j : ℕ) → own j (merge two two) ≡ maybe (own j two) (own j two) some)
merge_lem_example = merge_lem two two two-Distinct two-Distinct

-- `{ a: 'b c', d: '&\n' }`.
abbrev sent : Properties Text Text
sent = (codes "a", codes "b c") ∷ (codes "d", b'&' ∷ 10 ∷ []) ∷ []

sent-Sendable : Sendable (λ k. false) sent
unfolding own
sent-Sendable = (
  ((omega arith, tt), (omega arith, (omega arith, (omega arith, tt))), (λ e. cc), refl, refl),
  (((omega arith, tt), (omega arith, (omega arith, tt)), (λ e. cc), refl, refl), tt),
)

to_query_params-to_query_string_example :
    to_query_params (λ k. false) b'&' (to_query_string (texts sent)) ≡ ok (received sent)
to_query_params-to_query_string_example =
    to_query_params-to_query_string (λ k. false) sent sent-Sendable

-- A callback that stops the executer and throws.
abbrev failing : Callback String ℕ
failing x = (stop x, err "failed")

abbrev fresh : Executer ℕ
fresh = record { currently_executing = false; timer = some 1; cleared = []; page = 0 }

-- ===== src/AgentCommand/Lists.antt =====
-- What splitCSV makes of a list that is written with commas.
use Prim.Native.String.{◌++◌}
use enclout.Prelude.{String, false, List, [], ◌∷◌, ◌≡◌, ◌≢◌, refl, arith, All, eq_iff}
use enclout.Text.Trim.{trim_space, is_space_of_trimmed, trim_space-cons}
use text.Mathlib.TextLemmas.{cons-append}
use enclout.Text.Parts.{contains, split, split-append, split_whole}
use enclout.AgentCommand.{filled_parts, split_csv}

-- An entry of a list: a trimmed text that is not empty and has no comma.
pub record IsEntry (x : String) : Type 0 where
  pub trimmed : trim_space x ≡ x
  pub filled : x ≢ ""
  pub no_comma : contains x b',' ≡ false

-- The entries with commas between them.
unfoldable pub with_commas : List String → String
with_commas [] = ""
with_commas (x ∷ []) = x
with_commas (x ∷ y ∷ l) = x ++ (String.◌∷◌ "," (with_commas (y ∷ l)))

filled_parts-with_commas :
    (x : String) (l : List String)
    → All IsEntry (x ∷ l)
    → filled_parts (split (with_commas (x ∷ l)) b',') ≡ x ∷ l
unfolding filled_parts with_commas
filled_parts-with_commas x [] h =
    let whole = split_whole x b',' h.0.no_comma in
    let same = h.0.trimmed in let filled = h.0.filled in rw whole (ground (arith, eq_iff x ""))
filled_parts-with_commas x (y ∷ l) h =
    let parts = split-append x (with_commas (y ∷ l)) "," b',' h.0.no_comma refl in
    let same = h.0.trimmed in
    let filled = h.0.filled in
    let rest = filled_parts-with_commas y l h.1 in rw parts (ground (arith, eq_iff x ""))

first_entry-filled : (x : String) (t : String) → IsEntry x → trim_space (x ++ t) ≢ ""
first_entry-filled String.[] t h = absurd (h.filled refl)
first_entry-filled (String.◌∷◌ c x) t h =
    rw (cons-append c x t) (trim_space-cons c (x ++ t) (is_space_of_trimmed c x h.trimmed))

with_commas-filled :
    (x : String) (l : List String) → IsEntry x → trim_space (with_commas (x ∷ l)) ≢ ""
unfolding with_commas
with_commas-filled x [] h = rw h.trimmed h.filled
with_commas-filled x (y ∷ l) h = first_entry-filled x (String.◌∷◌ "," (with_commas (y ∷ l))) h

-- A list of entries that is written with commas is read back by splitCSV: what the agent allows is
-- what the setting lists. An entry is trimmed, is not empty and has no comma.
pub split_csv-with_commas : (l : List String) → All IsEntry l → split_csv (with_commas l) ≡ l
unfolding split_csv with_commas trim_space
split_csv-with_commas [] h = refl
split_csv-with_commas (x ∷ l) h =
    let filled = with_commas-filled x l h.0 in
    let parts = filled_parts-with_commas x l h in
    ground (arith, eq_iff (trim_space (with_commas (x ∷ l))) "")

-- ===== src/Processor/AsPathText.antt =====
-- asPathString of internal/processor/processor.go, which writes an AS path as the text that the
-- processor keeps and compares: the path read back from it.
use netvantage.Prelude.{◌≡◌, refl, ap, ◌∙◌, Option, none, some, List, [], ◌∷◌, String, ℤ, map}
use netvantage.Prelude.Text.{split_on, split_on-append, split_on-free}
use netvantage.Prelude.Decimal.{itoa, read_int}
use netvantage.Prelude.Decimal.RoundTrip.{read_int-itoa, itoa-IsFreeOf}
use netvantage.Processor.{as_path_string}

-- Every text of a list read as an integer.
unfoldable pub read_ints : List String → Option (List ℤ)
read_ints [] = some []
read_ints (s ∷ ss) = elim (read_int s) [
  | none ↦ none
  | some n ↦ elim (read_ints ss) [ none ↦ none | some ns ↦ some (n ∷ ns) ]
]

-- The numbers between the spaces of a text; none in the empty text.
unfoldable pub read_as_path : String → Option (List ℤ)
unfolding read_ints
read_as_path String.[] = some []
read_as_path (String.◌∷◌ c s) = read_ints (split_on b' ' (String.◌∷◌ c s))

split_on-as_path_string :
    (n : ℤ) (ns : List ℤ) → split_on b' ' (as_path_string (n ∷ ns)) ≡ map itoa (n ∷ ns)
unfolding as_path_string
split_on-as_path_string n [] = split_on-free b' ' (itoa n) (itoa-IsFreeOf n)
split_on-as_path_string n (m ∷ ns) =
    split_on-append " " (itoa n) (as_path_string (m ∷ ns)) (itoa-IsFreeOf n)
    ∙ ap (λ rest. itoa n ∷ rest) (split_on-as_path_string m ns)

read_ints-map : (ns : List ℤ) → read_ints (map itoa ns) ≡ some ns
unfolding read_ints
read_ints-map [] = refl
read_ints-map (n ∷ ns) = rw (read_int-itoa n, read_ints) (rw (read_ints-map ns, read_ints) refl)

-- A text that is not empty is read from its parts.
read_as_path-parts :
    (s : String) (n : ℤ) (ns : List ℤ)
    → split_on b' ' s ≡ itoa n ∷ map itoa ns
    → read_as_path s ≡ some (n ∷ ns)
unfolding read_as_path
read_as_path-parts String.[] n ns h =
    let empty : itoa n ≡ "" = unfold split_on in cc h in
    let unread : read_int (itoa n) ≡ none = rw empty (unfold read_int in refl) in
    cc (unread, read_int-itoa n)
read_as_path-parts (String.◌∷◌ c s) n ns h = rw h (read_ints-map (n ∷ ns))

-- An AS path, of any integers, is read back from the text that the processor keeps of it.
pub read_as_path-as_path_string : (path : List ℤ) → read_as_path (as_path_string path) ≡ some path
unfolding as_path_string read_as_path
read_as_path-as_path_string [] = refl
read_as_path-as_path_string (n ∷ ns) =
    read_as_path-parts (as_path_string (n ∷ ns)) n ns (split_on-as_path_string n ns)

pub as_path_string-injective :
    (path other : List ℤ) → as_path_string path ≡ as_path_string other → path ≡ other
as_path_string-injective path other e =
    cc (read_as_path-as_path_string path, read_as_path-as_path_string other, ap read_as_path e)

-- ===== src/Config/Text/Split.antt =====
-- Splitting undoes joining.
use blueprint.Prelude.{
  ℕ, false, ◌≡◌, refl, List, [], ◌∷◌, ◌++◌, Bytes, All, arith, ◌==◌, map, none, some,
}
use blueprint.Config.Text.{split_pair, split_pieces, split, trim_space}

-- strings.Join with a separator of one byte.
abbrev pub join : ℕ → List Bytes → Bytes
join sep [] = []
join sep (p ∷ []) = p
join sep (p ∷ q ∷ ps) = p ++ sep ∷ join sep (q ∷ ps)

-- No byte of the text is `sep`.
abbrev pub Without : ℕ → Bytes → Type 0
Without sep = All (λ c. (c == sep) ≡ false)

split_pieces-append :
    (sep : ℕ) (p s : Bytes) → Without sep p → split_pieces sep (p ++ sep ∷ s) ≡ (p, split sep s)
unfolding split_pieces split
split_pieces-append sep [] s h = ground arith
split_pieces-append sep (c ∷ p) s h = ground (arith, split_pieces-append sep p s h.1, h.0)

split_pieces_self : (sep : ℕ) (p : Bytes) → Without sep p → split_pieces sep p ≡ (p, [])
unfolding split_pieces
split_pieces_self sep [] h = refl
split_pieces_self sep (c ∷ p) h = ground (arith, split_pieces_self sep p h.1, h.0)

pub split-join :
    (sep : ℕ) (p : Bytes) (ps : List Bytes)
    → All (Without sep) (p ∷ ps)
    → split sep (join sep (p ∷ ps)) ≡ p ∷ ps
unfolding split
split-join sep p [] h = ground (arith, split_pieces_self sep p h.0)
split-join sep p (q ∷ ps) h =
    ground (arith, split_pieces-append sep p (join sep (q ∷ ps)) h.0, split-join sep q ps h.1)

pub map-trim_space : (ps : List Bytes) → All (λ p. trim_space p ≡ p) ps → map trim_space ps ≡ ps
map-trim_space [] h = refl
map-trim_space (p ∷ ps) h = ground (arith, map-trim_space ps h.1, h.0)

pub split_pair-append : (k v : Bytes) → Without b'=' k → split_pair (k ++ b'=' ∷ v) ≡ (k, some v)
unfolding split_pair
split_pair-append [] v h = ground arith
split_pair-append (c ∷ k) v h = ground (arith, split_pair-append k v h.1, h.0)

pub split_pair_self : (k : Bytes) → Without b'=' k → split_pair k ≡ (k, none)
unfolding split_pair
split_pair_self [] h = refl
split_pair_self (c ∷ k) h = ground (arith, split_pair_self k h.1, h.0)

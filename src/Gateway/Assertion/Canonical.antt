-- ===== src/Gateway/Assertion/Canonical.antt =====
-- The signed text determines the request.
use volta_gateway.Prelude.{
  ◌≡◌, sym, ap, ◌∙◌, false, List, [], ◌∷◌, ◌++◌, arith, map, All, Text, text, contains_byte, split,
  split_from, append_nil, append_assoc, upper_byte,
}
use volta_gateway.AuthCore.Policy.{join}
use volta_gateway.Gateway.Assertion.{Request, fields, canonical}

-- No line feed.
abbrev pub IsLine : Text → Type 0
IsLine s = contains_byte 10 s ≡ false

split_from-line : (piece s : Text) → IsLine s → split_from 10 piece s ≡ (piece ++ s) ∷ []
unfolding split_from
split_from-line piece [] h = ap (λ p. p ∷ []) (sym (append_nil piece))
split_from-line piece (c ∷ s) h =
    ground (arith, split_from-line (piece ++ c ∷ []) s, append_assoc piece (c ∷ []) s)

split_from-lines :
    (piece s rest : Text)
    → IsLine s
    → split_from 10 piece (s ++ 10 ∷ rest) ≡ (piece ++ s) ∷ split_from 10 [] rest
unfolding split_from
split_from-lines piece [] rest h = ap (λ p. p ∷ split_from 10 [] rest) (sym (append_nil piece))
split_from-lines piece (c ∷ s) rest h =
    ground (arith, split_from-lines (piece ++ c ∷ []) s rest, append_assoc piece (c ∷ []) s)

-- Lines that are joined by line feeds are read back by splitting.
split-join :
    (x : Text) (xs : List Text)
    → IsLine x
    → All IsLine xs
    → split 10 (join (10 ∷ []) (x ∷ xs)) ≡ x ∷ xs
unfolding split join
split-join x [] h hs = split_from-line [] x h
split-join x (y ∷ ys) h (k, hs) =
    ap (split_from 10 []) (append_assoc x (10 ∷ []) (join (10 ∷ []) (y ∷ ys)))
    ∙ split_from-lines [] x (join (10 ∷ []) (y ∷ ys)) h
    ∙ ap (λ r. x ∷ r) (split-join y ys k hs)

-- No field has a line feed.
abbrev pub HasLines : Text → Request → Type 0
HasLines timestamp r = All IsLine (fields timestamp r)

-- Two signed texts that agree, of requests and timestamps without line feeds, are of one timestamp
-- and of requests that agree in all but the case of their methods.
pub canonical_inj :
    (s t : Text) (q r : Request)
    → HasLines s q
    → HasLines t r
    → canonical s q ≡ canonical t r
    → (s ≡ t)
      × (map upper_byte q.method ≡ map upper_byte r.method)
      × (q.path_with_query ≡ r.path_with_query)
      × (q.user_id ≡ r.user_id)
      × (q.tenant_id ≡ r.tenant_id)
      × (q.roles ≡ r.roles)
unfolding canonical
canonical_inj s t q r (v, hs) (w, ht) e =
    let same : fields s q ≡ fields t r =
      sym (split-join (text "v1") _ v hs) ∙ ap (split 10) e ∙ split-join (text "v1") _ w ht in
    (ground arith, ground arith, ground arith, ground arith, ground arith, ground arith)

-- ===== src/Rpc/Target.antt =====
-- `HTTPMessage::parse_service_from_request_target` of src/rpc_message.cc.
use roshanfer_sidecar.Base.{
  ℕ, ◌≡◌, refl, ap, ◌∙◌, inl, inr, [], ◌∷◌, ◌++◌, none, some, Bytes, ◌==◌, arith, Bool-cases,
}
use roshanfer_sidecar.Rpc.{
  starts_with, find_byte, up_to, drop, scheme, service_after, parse_service,
}

find_byte-append :
    (c : ℕ) (xs ys : Bytes) → find_byte c xs ≡ none → find_byte c (xs ++ c ∷ ys) ≡ some (c ∷ ys)
unfolding find_byte
find_byte-append c [] ys h = ground arith
find_byte-append c (x ∷ xs) ys h = ground (arith, find_byte-append c xs ys)

up_to-append : (c : ℕ) (xs ys : Bytes) → find_byte c xs ≡ none → up_to c (xs ++ c ∷ ys) ≡ xs
unfolding find_byte up_to
up_to-append c [] ys h = ground arith
up_to-append c (x ∷ xs) ys h = elim (Bool-cases (x == c)) [
  | inl same ↦ absurd (ground arith)
  | inr other ↦ rw (other, up_to-append c xs ys (ground arith)) refl
]

up_to-none : (c : ℕ) (xs : Bytes) → find_byte c xs ≡ none → up_to c xs ≡ xs
unfolding find_byte up_to
up_to-none c [] h = refl
up_to-none c (x ∷ xs) h = elim (Bool-cases (x == c)) [
  | inl same ↦ absurd (ground arith)
  | inr other ↦ rw (other, up_to-none c xs (ground arith)) refl
]

-- The target of a request to a proxy, "http://" with a host, a path of one segment at least, and a
-- query, names the service by its path: what stands between the first slash after the host and the
-- question mark. The host has no slash, and the path is not empty and has no question mark.
pub parse_service-query :
    (host query : Bytes) (c : ℕ) (service : Bytes)
    → find_byte 47 host ≡ none
    → find_byte 63 (c ∷ service) ≡ none
    → parse_service (scheme ++ (host ++ (47 ∷ ((c ∷ service) ++ (63 ∷ query)))))
      ≡ some (c ∷ service)
unfolding parse_service starts_with drop service_after
parse_service-query host query c service no_slash no_mark =
    ap service_after (find_byte-append 47 host ((c ∷ service) ++ 63 ∷ query) no_slash)
    ∙ ap some (up_to-append 63 (c ∷ service) query no_mark)

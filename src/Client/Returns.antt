-- ===== src/Client/Returns.antt =====
-- About the credits that a call of a dynamic fan-out returns.
use roshanfer_sidecar.Base.{
  ◌≡◌, refl, sym, ◌∙◌, inl, inr, List, [], ◌∷◌, ◌++◌, some, Bytes, bytes_eq, Result, ok, ◌>>=◌,
  or_fault, ok_inj, >>=-eq-ok, Bool-cases, if◌then◌else◌,
}
use mathlib.Core.List.{append-nil}
use roshanfer_sidecar.Rpc.{Message}
use roshanfer_sidecar.Rlp.{Datagram, prepare_credit_return}
use roshanfer_sidecar.Server.{Server}
use roshanfer_sidecar.Client.Fanout.{store_return}
use roshanfer_sidecar.Client.Parallel.{Leaves, Grant}

-- The Credit Returns for the grants that are not from the service of the call.
unfoldable pub returns_of : Bytes → List Grant → Result (List Datagram)
returns_of chosen [] = ok []
returns_of chosen (g ∷ gs) =
    let rest = returns_of chosen gs in
    let more = prepare_credit_return g.grant g.blank >>= λ d. rest >>= λ ds. ok (d ∷ ds) in
    if bytes_eq chosen g.service then rest else more

pub store_return-eq :
    (chosen : Bytes) (m : Message Datagram) (g : Grant) {returns : List Datagram}
    → m.dfanout_service ≡ some chosen
    → store_return m g.service g.grant g.blank ≡ ok returns
    → (one : List Datagram) × (returns ≡ m.credit_return_queue ++ one)
      × ((gs : List Grant) (rest : List Datagram)
          → returns_of chosen gs ≡ ok rest
          → returns_of chosen (g ∷ gs) ≡ ok (one ++ rest))
unfolding store_return returns_of
store_return-eq chosen m g at h = elim (Bool-cases (bytes_eq chosen g.service)) [
  | inl same ↦ (
    [],
    ok_inj (sym h ∙ rw (at, or_fault) (rw same refl)) ∙ sym (append-nil m.credit_return_queue),
    λ gs rest e. rw same e,
  )
  | inr other ↦
      let stored : (prepare_credit_return g.grant g.blank >>= λ ret.
      ok (m.credit_return_queue ++ ret ∷ []))
          ≡ ok _ =
        sym (rw (at, or_fault) (rw other refl)) ∙ h in
      let (d, made, done) = >>=-eq-ok (prepare_credit_return g.grant g.blank) _ stored in
      (d ∷ [], sym (ok_inj done), λ gs rest e. rw other (rw made (rw e refl)))
]

-- The credits that were for nothing go back before the call leaves.
abbrev pub Flushes : Server → List Datagram → Server → Type 0
Flushes s returns s' = Leaves (record s { sent = s.sent ++ returns }) s'

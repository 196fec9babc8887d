-- ===== src/Config/Entries.antt =====
-- About the entries of `mapping` that `load_config` of src/config.cc returns.
use roshanfer_sidecar.Base.{
  ◌≤◌, ◌≡◌, ◌⊎◌, inl, inr, refl, List, [], ◌∷◌, Bool, true, false, ◌&&◌, ◌||◌, not, Option, none,
  some, Bytes, length, ltb, ◌==◌, fatal, ok, ok_inj, >>=-eq-ok, require-ok, arith, subst, ite,
}
use roshanfer_sidecar.Base.Assoc.{assign, Bytes_discrete}
use roshanfer_sidecar.Config.{
  MappingInfo, Yaml, is_set, has_value, optional, load_strings, load_downstreams, load_info,
  load_infos, load_mapping, downstreams_key, listen_port_key, pfanout_key, dfanout_key,
}

-- An entry of `mapping` that the rest of the program can count with.
pub record IsInfo (ingress_role : Bool) (i : MappingInfo) : Type 0 where
  pub few : length i.downstreams ≤ 255
  pub dynamic : (is_set i.dfanout ≡ false) ⊎ (length i.downstreams ≤ 10)
  pub one :
      (ingress_role ≡ false)
      ⊎ ((length i.downstreams ≡ 1) × (has_value i.dfanout ≡ false) × (has_value i.pfanout ≡ false))

abbrev pub AllInfo : Bool → List (Bytes × MappingInfo) → Type 0
AllInfo role [] = Unit {0}
AllInfo role ((k, i) ∷ rest) = IsInfo role i × AllInfo role rest

pub not_both : (a b : Bool) → not (a && b) ≡ true → (a ≡ false) ⊎ (b ≡ false)
not_both true b h = inr (ground (arith, h))
not_both false b h = inl refl

not_or : (a b : Bool) → (not a || b) ≡ true → (a ≡ false) ⊎ (b ≡ true)
not_or true b h = inr h
not_or false b h = inl refl

assign-AllInfo :
    (role : Bool) (k : Bytes) (i : MappingInfo) (m : List (Bytes × MappingInfo))
    → IsInfo role i
    → AllInfo role m
    → AllInfo role (assign Bytes_discrete k i m)
unfolding assign
assign-AllInfo role k i [] valid all = (valid, tt)
assign-AllInfo role k i ((j, w) ∷ m) valid (this, rest) =
    elim (Bytes_discrete j k)
      as (λ d. AllInfo role (ite d ((k, i) ∷ m) ((j, w) ∷ assign Bytes_discrete k i m))) [
        | yes e ↦ (valid, rest)
        | no n ↦ (this, assign-AllInfo role k i m valid rest)
      ]

module _ {Node F : Type 0} (y : Yaml Node F) where
  load_downstreams-few :
      (node : Option Node) {names : List Bytes}
      → load_downstreams y node ≡ ok names
      → length names ≤ 255
  unfolding load_downstreams
  load_downstreams-few none h = subst (λ l. length l ≤ 255) (ok_inj h) (omega arith)
  load_downstreams-few (some node) h =
      let (_, h₁) = require-ok (y.is_sequence node) fatal _ h in
      let (names, _, h₂) = >>=-eq-ok (load_strings y (y.items node)) _ h₁ in
      let (few, h₃) = require-ok (not (ltb 255 (length names))) fatal _ h₂ in
      subst (λ l. length l ≤ 255) (ok_inj h₃) (ground (arith, few))

  load_info-IsInfo :
      (role : Bool) (node : Node) {i : MappingInfo} → load_info y role node ≡ ok i → IsInfo role i
  unfolding load_info
  load_info-IsInfo role node h =
      let (names, loaded, h₁) = >>=-eq-ok (load_downstreams y (y.child node downstreams_key)) _ h in
      let (listen_port, _, h₂) = >>=-eq-ok (optional y y.as_port node listen_port_key) _ h₁ in
      let (pfanout, _, h₃) = >>=-eq-ok (optional y y.as_bool node pfanout_key) _ h₂ in
      let (dfanout, _, h₄) = >>=-eq-ok (optional y y.as_bool node dfanout_key) _ h₃ in
      let (few, h₅) = require-ok (not (ltb 10 (length names) && is_set dfanout)) fatal _ h₄ in
      let (single, h₆) = require-ok (not role || (length names == 1)) fatal _ h₅ in
      let (plain, h₇) =
        require-ok (not (role && (has_value dfanout || has_value pfanout))) fatal _ h₆ in
      subst (IsInfo role) (ok_inj h₇) (record {
        few = load_downstreams-few (y.child node downstreams_key) loaded;
        dynamic = elim (not_both (ltb 10 (length names)) (is_set dfanout) few) [
          | inl short ↦ inr (ground (arith, short))
          | inr static ↦ inl static
        ];
        one = elim (not_or role (length names == 1) single) [
          | inl other ↦ inl other
          | inr exactly ↦ elim (not_both role (has_value dfanout || has_value pfanout) plain) [
            | inl other ↦ inl other
            | inr neither ↦
                let (no_d, no_p) = neither_of (has_value dfanout) (has_value pfanout) neither in
                inr (ground (arith, exactly), no_d, no_p)
          ]
        ];
      })
    where
      neither_of : (a b : Bool) → (a || b) ≡ false → (a ≡ false) × (b ≡ false)
      neither_of true b e = cc
      neither_of false b e = (refl, e)

  load_infos-AllInfo :
      (role : Bool) (entries : List (Node × Node)) (m : List (Bytes × MappingInfo))
      {m' : List (Bytes × MappingInfo)}
      → AllInfo role m
      → load_infos y role entries m ≡ ok m'
      → AllInfo role m'
  unfolding load_infos
  load_infos-AllInfo role [] m all h = subst (AllInfo role) (ok_inj h) all
  load_infos-AllInfo role ((key, node) ∷ rest) m all h =
      let (upstream, _, h₁) = >>=-eq-ok (y.as_string key) _ h in
      let (info, loaded, h₂) = >>=-eq-ok (load_info y role node) _ h₁ in
      load_infos-AllInfo role rest (assign Bytes_discrete upstream info m)
        (assign-AllInfo role upstream info m (load_info-IsInfo role node loaded) all) h₂

  pub load_mapping-AllInfo :
      (role : Bool) (node : Option Node) {m : List (Bytes × MappingInfo)}
      → load_mapping y role node ≡ ok m
      → AllInfo role m
  unfolding load_mapping
  load_mapping-AllInfo role none h = subst (AllInfo role) (ok_inj h) tt
  load_mapping-AllInfo role (some node) h =
      let (_, h₁) = require-ok (y.is_map node) fatal _ h in
      load_infos-AllInfo role (y.entries node) [] tt h₁

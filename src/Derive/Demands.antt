-- ===== src/Derive/Demands.antt =====
-- What the generator (derive/src/lib.rs) demands of names and types: where it succeeds, the names make
-- identifiers and the types have no tuples.
use ethabi.Base.{
  ℕ, suc, true, false, Bool-cases, inl, inr, List, [], ◌∷◌, All, Bytes, Result, ok, panic, ◌>>=◌,
  bind_ok, ◌≡◌, ap, ◌∙◌,
}
use ethabi.ParamType.{ParamType}
use ethabi.Param.{Param, EventParam}
use ethabi.Derive.{rust_type}
use ethabi.Derive.Tokens.{IsEmitted}
use ethabi.Derive.Parts.{
  Crates, both, new_ident, input_name, input_names, input_names_from, template_param_type,
  declarations, get_output_kinds,
}
use ethabi.Derive.EventParts.{event_name, event_names}
use ethabi.Derive.Idents.{AreIdents, input_texts, event_texts}
use ethabi.Derive.Emitted.{AreEmitted}

abbrev pub IsOk : {T : Type 0} → Result T → Type 0
IsOk {T} r = (t : T) × (r ≡ ok t)

pub IsOk-bind :
    {S T : Type 0} (m : Result S) (k : S → Result T)
    → IsOk m
    → ((s : S) → IsOk (k s))
    → IsOk (m >>= k)
IsOk-bind m k first after = let rest = after first.0 in (rest.0, ap (λ m. m >>= k) first.1 ∙ rest.1)

pub both-All :
    {S T : Type 0} (P : S → Type 0) (f : S → Result T)
    → ((s : S) → IsOk (f s) → P s)
    → (ss : List S) → IsOk (both f ss)
    → All P ss
both-All P f one [] h = tt
both-All P f one (s ∷ ss) h =
    let first = bind_ok (f s) (λ t. both f ss >>= λ ts. ok (t ∷ ts)) h.0 h.1 in
    let rest = bind_ok (both f ss) (λ ts. ok (first.0 ∷ ts)) h.0 first.2 in
    (one s (first.0, first.1), both-All P f one ss (rest.0, rest.1))

pub rust_type-ok : (p : ParamType) → IsOk (rust_type p) → IsEmitted p
unfolding rust_type
rust_type-ok (ParamType.array p) h =
    let inner = bind_ok (rust_type p) _ h.0 h.1 in rust_type-ok p (inner.0, inner.1)
rust_type-ok (ParamType.fixed_array p n) h =
    let inner = bind_ok (rust_type p) _ h.0 h.1 in rust_type-ok p (inner.0, inner.1)
rust_type-ok (ParamType.tuple ps) h = let impossible = h.1 in absurd (cc)
rust_type-ok ParamType.address h = tt
rust_type-ok ParamType.bytes h = tt
rust_type-ok (ParamType.int n) h = tt
rust_type-ok (ParamType.uint n) h = tt
rust_type-ok ParamType.bool h = tt
rust_type-ok ParamType.string h = tt
rust_type-ok (ParamType.fixed_bytes n) h = tt

template_param_type-ok : (p : ParamType) (i : ℕ) → IsOk (template_param_type p i) → IsEmitted p
unfolding template_param_type
template_param_type-ok (ParamType.array p) i h =
    let inner = bind_ok (rust_type p) _ h.0 h.1 in rust_type-ok p (inner.0, inner.1)
template_param_type-ok (ParamType.fixed_array p n) i h =
    let inner = bind_ok (rust_type p) _ h.0 h.1 in rust_type-ok p (inner.0, inner.1)
template_param_type-ok (ParamType.tuple ps) i h = let impossible = h.1 in absurd (cc)
template_param_type-ok ParamType.address i h = tt
template_param_type-ok ParamType.bytes i h = tt
template_param_type-ok (ParamType.int n) i h = tt
template_param_type-ok (ParamType.uint n) i h = tt
template_param_type-ok ParamType.bool i h = tt
template_param_type-ok ParamType.string i h = tt
template_param_type-ok (ParamType.fixed_bytes n) i h = tt

pub declarations-ok : (i : ℕ) (ps : List Param) → IsOk (declarations i ps) → AreEmitted ps
unfolding declarations
declarations-ok i [] h = tt
declarations-ok i (p ∷ ps) h =
    let first = bind_ok (template_param_type p.kind i) _ h.0 h.1 in
    let rest = bind_ok (declarations (suc i) ps) _ h.0 first.2 in
    (
      template_param_type-ok p.kind i (first.0, first.1),
      declarations-ok (suc i) ps (rest.0, rest.1),
    )

pub get_output_kinds-ok : (ps : List Param) → IsOk (get_output_kinds ps) → AreEmitted ps
unfolding get_output_kinds
get_output_kinds-ok [] h = tt
get_output_kinds-ok (p ∷ []) h =
    let one = bind_ok (rust_type p.kind) _ h.0 h.1 in (rust_type-ok p.kind (one.0, one.1), tt)
get_output_kinds-ok (p ∷ q ∷ ps) h =
    let kinds = bind_ok (both (λ (p : Param). rust_type p.kind) (p ∷ q ∷ ps)) _ h.0 h.1 in
    both-All (λ (p : Param). IsEmitted p.kind) (λ (p : Param). rust_type p.kind)
      (λ p k. rust_type-ok p.kind k) (p ∷ q ∷ ps) (kinds.0, kinds.1)

new_ident-ok : (crates : Crates) (n : Bytes) → IsOk (new_ident crates n) → crates.is_ident n ≡ true
unfolding new_ident
new_ident-ok crates n h = elim (Bool-cases (crates.is_ident n)) [
  | inl e ↦ e
  | inr e ↦ let impossible : panic ≡ ok h.0 = (rw e at h.1) in absurd (cc)
]

input_names_from-ok :
    (crates : Crates) (i : ℕ) (ps : List Param)
    → IsOk (input_names_from crates i ps)
    → AreIdents crates (input_texts crates i ps)
unfolding input_names_from
input_names_from-ok crates i [] h = tt
input_names_from-ok crates i (p ∷ ps) h =
    let first = bind_ok (new_ident crates (input_name crates i p)) _ h.0 h.1 in
    let rest = bind_ok (input_names_from crates (suc i) ps) _ h.0 first.2 in
    (
      new_ident-ok crates (input_name crates i p) (first.0, first.1),
      input_names_from-ok crates (suc i) ps (rest.0, rest.1),
    )

pub input_names-ok :
    (crates : Crates) (ps : List Param)
    → IsOk (input_names crates ps)
    → AreIdents crates (input_texts crates 0 ps)
unfolding input_names
input_names-ok crates ps h = input_names_from-ok crates 0 ps h

pub event_names-ok :
    (crates : Crates) (i : ℕ) (ps : List EventParam)
    → IsOk (event_names crates false i ps)
    → AreIdents crates (event_texts crates false i ps)
unfolding event_names
event_names-ok crates i [] h = tt
event_names-ok crates i (p ∷ ps) h =
    let first = bind_ok (new_ident crates (event_name crates i p)) _ h.0 h.1 in
    let rest = bind_ok (event_names crates false (suc i) ps) _ h.0 first.2 in
    (
      new_ident-ok crates (event_name crates i p) (first.0, first.1),
      event_names-ok crates (suc i) ps (rest.0, rest.1),
    )

-- ===== src/Derive/Idents.antt =====
-- The identifiers that derive/src/lib.rs and derive/src/event.rs make of names, where none of them
-- panics.
use ethabi.Base.{
  text, decimal, ◌++◌, ◌==◌, ℕ, suc, ◌&&◌, not, Bool, true, false, Bool-cases, inl, inr,
  if◌then◌else◌, List, [], ◌∷◌, length, map, All, Bytes, Result, ok, ◌>>=◌, bind_ok, ◌≡◌, refl, ap,
}
use ethabi.Event.{select}
use ethabi.Param.{Param, EventParam}
use ethabi.Derive.Keywords.{is_keyword}
use ethabi.Derive.Parts.{
  Crates, both, new_ident, input_name, input_names, input_names_from, definitions,
  get_template_names,
}
use ethabi.Derive.EventParts.{event_name, event_names, zip_with}

abbrev pub AreIdents : Crates → List Bytes → Type 0
AreIdents crates ns = All (λ n. crates.is_ident n ≡ true) ns

-- The name of a module: an identifier in snake case and no keyword.
abbrev pub IsModuleName : Crates → Bytes → Type 0
IsModuleName crates name =
    (crates.is_ident (crates.to_snake_case name) ≡ true)
    × (is_keyword (crates.to_snake_case name) ≡ false)

pub new_ident_ok :
    (crates : Crates) (n : Bytes) → crates.is_ident n ≡ true → new_ident crates n ≡ ok n
unfolding new_ident
new_ident_ok crates n h = rw h

-- The texts that the identifiers for inputs are made of.
abbrev pub input_texts : Crates → ℕ → List Param → List Bytes
input_texts crates i [] = []
input_texts crates i (p ∷ ps) = input_name crates i p ∷ input_texts crates (suc i) ps

pub input_names_from-AreIdents :
    (crates : Crates) (i : ℕ) (ps : List Param)
    → AreIdents crates (input_texts crates i ps)
    → input_names_from crates i ps ≡ ok (input_texts crates i ps)
unfolding input_names_from
input_names_from-AreIdents crates i [] h = refl
input_names_from-AreIdents crates i (p ∷ ps) h = rw (
  new_ident_ok crates (input_name crates i p) h.0,
  input_names_from-AreIdents crates (suc i) ps h.1,
)

pub input_names-AreIdents :
    (crates : Crates) (ps : List Param)
    → AreIdents crates (input_texts crates 0 ps)
    → input_names crates ps ≡ ok (input_texts crates 0 ps)
unfolding input_names
input_names-AreIdents crates ps h = input_names_from-AreIdents crates 0 ps h

pub map-definitions :
    (crates : Crates) (i j : ℕ) (ps : List Param)
    → map (λ d. d.0) (definitions (input_texts crates i ps) (get_template_names j (length ps)))
      ≡ input_texts crates i ps
unfolding definitions get_template_names
map-definitions crates i j [] = refl
map-definitions crates i j (p ∷ ps) =
    ap (λ ns. input_name crates i p ∷ ns) (map-definitions crates (suc i) (suc j) ps)

-- Those for the parameters of an event, or its indexed ones.
abbrev pub event_texts : Crates → Bool → ℕ → List EventParam → List Bytes
event_texts crates only_indexed i [] = []
event_texts crates only_indexed i (p ∷ ps) =
    let rest = event_texts crates only_indexed (suc i) ps in
    if only_indexed && not p.indexed then rest else event_name crates i p ∷ rest

pub event_names-AreIdents :
    (crates : Crates) (b : Bool) (i : ℕ) (ps : List EventParam)
    → AreIdents crates (event_texts crates b i ps)
    → event_names crates b i ps ≡ ok (event_texts crates b i ps)
unfolding event_names
event_names-AreIdents crates b i [] h = refl
event_names-AreIdents crates b i (p ∷ ps) h = elim (Bool-cases (b && not p.indexed)) [
  | inl e ↦
      let h' : AreIdents crates (event_texts crates b (suc i) ps) = (rw e at h) in
      rw e (event_names-AreIdents crates b (suc i) ps h')
  | inr e ↦
      let h' : AreIdents crates (event_name crates i p ∷ event_texts crates b (suc i) ps) =
        (rw e at h) in
      rw (
        e,
        new_ident_ok crates (event_name crates i p) h'.0,
        event_names-AreIdents crates b (suc i) ps h'.1,
      )
]

kept :
    (crates : Crates) (b : Bool) (n : Bytes) (ns : List Bytes)
    → crates.is_ident n ≡ true
    → AreIdents crates ns
    → AreIdents crates (if b then ns else n ∷ ns)
kept crates true n ns h k = k
kept crates false n ns h k = (h, k)

-- The indexed parameters are among them.
pub indexed_texts :
    (crates : Crates) (i : ℕ) (ps : List EventParam)
    → AreIdents crates (event_texts crates false i ps)
    → AreIdents crates (event_texts crates true i ps)
indexed_texts crates i [] h = tt
indexed_texts crates i (p ∷ ps) h =
    kept crates (not p.indexed) (event_name crates i p) (event_texts crates true (suc i) ps) h.0
      (indexed_texts crates (suc i) ps h.1)

-- A field for each of them.
pub map-zip_with :
    {T : Type 0} (crates : Crates) (f : EventParam → Result T) (i : ℕ) (ps : List EventParam)
    (ts : List T)
    → both f ps ≡ ok ts
    → map (λ z. z.0) (zip_with (event_texts crates false i ps) ts) ≡ event_texts crates false i ps
map-zip_with crates f i [] ts h = refl
map-zip_with crates f i (p ∷ ps) [] h =
    let first = bind_ok (f p) (λ t. both f ps >>= λ ts. ok (t ∷ ts)) [] h in
    let rest = bind_ok (both f ps) (λ ts. ok (first.0 ∷ ts)) [] first.2 in
    let impossible : first.0 ∷ rest.0 ≡ [] = cc in absurd (cc)
map-zip_with crates f i (p ∷ ps) (t ∷ ts) h =
    let first = bind_ok (f p) (λ t. both f ps >>= λ ts. ok (t ∷ ts)) (t ∷ ts) h in
    let rest = bind_ok (both f ps) (λ ts. ok (first.0 ∷ ts)) (t ∷ ts) first.2 in
    let same : both f ps ≡ ok ts = cc in
    ap (λ ns. event_name crates i p ∷ ns) (map-zip_with crates f (suc i) ps ts same)

-- A parameter of `filter` for each indexed one.
pub definitions-select :
    (crates : Crates) (i j : ℕ) (ps : List EventParam)
    → map
        (λ d. d.0)
        (definitions
          (event_texts crates true i ps)
          (get_template_names j (length (select true ps))))
      ≡ event_texts crates true i ps
unfolding definitions get_template_names select
definitions-select crates i j [] = refl
definitions-select crates i j (p ∷ ps) = elim (Bool-cases p.indexed) [
  | inl e ↦ rw e (
      ap
        (λ ns.
          (if length p.name == 0 then text "topic" ++ decimal i else crates.to_snake_case p.name)
          ∷ ns)
        (definitions-select crates (suc i) (suc j) ps))
  | inr e ↦ rw e (definitions-select crates (suc i) j ps)
]

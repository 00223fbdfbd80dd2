-- ===== src/Typesystem/Cycle/Clean.antt =====
-- Where HasCycle finds none, there is none.
use mongopenfga.Prelude.{
  ℕ, zero, suc, ◌≡◌, sym, ap, subst, ◌∙◌, inl, inr, false, ◌||◌, List, [], ◌∷◌, Text, arith,
  text_eq, text_beq_refl, is_key,
}
use mongopenfga.Storage.Iterators.Defs.{Answer, answer}
use mongopenfga.Typesystem.Rewrite.{RelationError}
use mongopenfga.Typesystem.Model.{TypeSystem, Relation, get_relation}
use mongopenfga.Typesystem.Cycle.{has, path_key, cycle_from}
use mongopenfga.Typesystem.Cycle.Follow.{
  ComputedIn, Edge, Walk, one, more, Leads, Followed, not_covered, follow,
}

answer_injective : {E A : Type 0} (a b : A) → ◌≡◌ {A = Answer E A} (answer a) (answer b) → a ≡ b
answer_injective a b h = cc h

module _ {Cond : Type 0} (t : TypeSystem Cond) (object_type : Text) where
  pub record Clean (fuel : ℕ) (r : Text) (v : List Text) : Type 0 where
    pub definition : Relation
    pub is_defined : get_relation t object_type r ≡ answer definition
    pub clean : cycle_from t object_type fuel r definition.rewrite v ≡ has false

  clean_step :
      (fuel : ℕ) (r s : Text) (v : List Text)
      → Clean (suc fuel) r v
      → Edge t object_type r s
      → Followed t object_type (cycle_from t object_type fuel) (path_key t object_type r ∷ v) s
  unfolding cycle_from
  clean_step fuel r s v c e =
      follow t object_type (cycle_from t object_type fuel) r s c.definition.rewrite v c.clean (
        subst (λ d. ComputedIn s d.rewrite)
          (answer_injective {E = RelationError} e.definition c.definition
            (sym e.is_defined ∙ c.is_defined))
          e.occurs)

  not-Clean : (r : Text) (v : List Text) → ¬ Clean zero r v
  unfolding cycle_from
  not-Clean r v c = cc c.clean

  record Arrived (u : Text) : Type 0 where
    fuel : ℕ
    visited : List Text
    clean : Clean fuel u visited

  Walk-fresh :
      (fuel : ℕ) {r u : Text} (v : List Text)
      → Walk t object_type r u
      → Clean fuel r v
      → (is_key (path_key t object_type u) (path_key t object_type r ∷ v) ≡ false) × Arrived u
  Walk-fresh zero {r} v w c = absurd (not-Clean r v c)
  Walk-fresh (suc fuel) {r} {u} v (one e) c =
      let f = clean_step fuel r u v c e in
      (
        not_covered (path_key t object_type r ∷ v) f.visited (path_key t object_type u) f.covers
            f.fresh,
        record {
          fuel = fuel;
          visited = f.visited;
          clean = record { definition = f.definition; is_defined = f.is_defined; clean = f.clean };
        },
      )
  Walk-fresh (suc fuel) {r} {u} v (more {s = s} e w) c =
      let f = clean_step fuel r s v c e in
      let rest =
        Walk-fresh fuel f.visited w
          (record { definition = f.definition; is_defined = f.is_defined; clean = f.clean }) in
      (
        not_covered (path_key t object_type r ∷ v) f.visited (path_key t object_type u) f.covers
            (ground (arith, rest.0)),
        rest.1,
      )

  no-Walk_back : (fuel : ℕ) (s : Text) (v : List Text) → Clean fuel s v → ¬ Walk t object_type s s
  no-Walk_back fuel s v c w =
      let p = Walk-fresh fuel v w c in
      let key = path_key t object_type s in
      cc (sym p.0 ∙ ap (λ b. b || is_key key v) (text_beq_refl key))

  pub Clean-acyclic :
      (fuel : ℕ) (r s : Text) → Clean fuel r [] → Leads t object_type r s → ¬ Walk t object_type s s
  Clean-acyclic fuel r s c (inl e) w =
      no-Walk_back fuel r [] c (subst (λ x. Walk t object_type x x) (sym e) w)
  Clean-acyclic fuel r s c (inr l) w =
      let a = (Walk-fresh fuel [] l c).1 in no-Walk_back a.fuel s a.visited a.clean w

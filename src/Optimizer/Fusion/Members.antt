-- ===== src/Optimizer/Fusion/Members.antt =====
-- The members of a stage have the values of the ops that they come from.
use graphed_core_mvp.Base.{
  ap₂, get_elem?-middle, err, err, ap, ◌∙◌, ℕ, zero, suc, ◌≡◌, refl, sym, List, [], ◌∷◌, ◌++◌, map,
  arith, length, get_elem?, get_elem?-append, get_or, All, All-append, Option, some, none,
  Option-cases, ◌⊎◌, inl, inr, Result, ok, append-nil, append_assoc,
}
use mathlib.Core.Option.{some_inj}
use graphed_core_mvp.Text.{Text}
use graphed_core_mvp.Node.{StageOp, StageRef, input, member}
use graphed_core_mvp.Optimizer.{panic, Halt, EngineNode, ◌>>=◌, index}
use graphed_core_mvp.Optimizer.Values.{at_all}
use graphed_core_mvp.Optimizer.Holds.{Holds}
use graphed_core_mvp.Optimizer.Engine.{lookup}
use graphed_core_mvp.Optimizer.Engine.Classes.{lookup_or, lookup_or-some}
use graphed_core_mvp.Optimizer.Fusion.{enumerate_from, stage_ref, stage_refs, stage_ops}
use graphed_core_mvp.Optimizer.Fusion.Semantics.{ref_value, member_values}
use graphed_core_mvp.Optimizer.Fusion.Places.{enumerate_from-some}

pub index-ok {ℓ} :
    {A : Type ℓ} (xs : List A) (i : ℕ) (a : A) → get_elem? xs i ≡ some a → index xs i ≡ ok a
index-ok {A = A} xs i a h =
    ap (λ (o : Option A). elim o as (λ z. Result Halt A) [ some b ↦ ok b | none ↦ err panic ]) h

pub get_or-map {ℓ κ} :
    {A : Type ℓ} {B : Type κ} (f : A → B) (xs : List A) (i : ℕ) (a : A) (d : B)
    → get_elem? xs i ≡ some a
    → get_or (map f xs) i d ≡ f a
get_or-map f [] i a d h = cc
get_or-map f (x ∷ xs) zero a d h = ap f (some_inj.0 h)
get_or-map f (x ∷ xs) (suc i) a d h = get_or-map f xs i a d h

reassociate : (a b c e : List ℕ) → (a ++ b) ++ (c ++ e) ≡ (a ++ (b ++ c)) ++ e
reassociate a b c e = sym (append_assoc (a ++ b) c e) ∙ ap (λ t. t ++ e) (append_assoc a b c)

module _ {ℓ} {A : Type ℓ} (tokens : Text → List A → A) (d : A) (nodes : List EngineNode)
    (comp : List ℕ) (vs ws : List A) (table local : List (ℕ × ℕ)) where
  -- The value of a component that is built.
  abbrev pub slot_value : ℕ → A
  slot_value c = get_or ws (lookup_or c table) d

  -- A component is built, and its node has this value.
  abbrev pub IsBuilt : ℕ → A → Type ℓ
  IsBuilt c v = (m : ℕ) × (lookup c table ≡ some m) × Holds d ws m v

  slot_value-IsBuilt : (c : ℕ) (v : A) → IsBuilt c v → slot_value c ≡ v
  slot_value-IsBuilt c v (m, e, h) = rw (lookup_or-some c m table e) h.1

  -- An input of a member is an earlier member, or the node of another component.
  abbrev pub IsGood : List A → ℕ → Type ℓ
  IsGood vals inp =
      ((k : ℕ) × (lookup inp local ≡ some k) × Holds d vals k (get_or vs inp d))
      ⊎ ((c : ℕ) × (lookup inp local ≡ none)
          × (get_elem? comp inp ≡ some c)
          × IsBuilt c (get_or vs inp d))

  abbrev pub AreReady : List ℕ → Type ℓ
  AreReady slots = All (λ c. (v : A) × IsBuilt c v) slots

  -- The values of the inputs of a stage with these slots.
  abbrev pub slot_values : List ℕ → List A
  slot_values slots = map slot_value slots

  slot-at :
      (slots later : List ℕ) (s c : ℕ) (v : A)
      → get_elem? slots s ≡ some c
      → IsBuilt c v
      → get_or (slot_values (slots ++ later)) s d ≡ v
  slot-at slots later s c v e b =
      get_or-map slot_value (slots ++ later) s c d (get_elem?-append slots later s e)
      ∙ slot_value-IsBuilt c v b

  -- A reference has the value `v`, also when more slots follow.
  record RefEnds (vals : List A) (slots : List ℕ) (v : A) (r : Result Halt (StageRef × List ℕ))
      : Type ℓ where
    ref : StageRef
    more : List ℕ
    ends : r ≡ ok (ref, slots ++ more)
    ready : AreReady (slots ++ more)
    valued :
        (later : List ℕ) → ref_value tokens d (slot_values ((slots ++ more) ++ later)) vals ref ≡ v

  stage_ref-Ends :
      (vals : List A) (slots : List ℕ) (inp : ℕ)
      → IsGood vals inp
      → AreReady slots
      → RefEnds vals slots (get_or vs inp d) (stage_ref comp local slots inp)
  stage_ref-Ends vals slots inp (inl (k, e, h)) r = record {
    ref = member k;
    more = [];
    ends = rw (e, stage_ref) (ap (λ t. ok (member k, t)) (sym (append-nil slots)));
    ready = rw append-nil r;
    valued = λ later. h.1;
  }
  stage_ref-Ends vals slots inp (inr (c, e, f, b)) r =
      elim (Option-cases (lookup c (enumerate_from 0 slots))) [
        | inr (s, g) ↦
            let (n, z, at) = enumerate_from-some 0 slots c s g in
            let same : n ≡ s = omega arith in
            record {
              ref = input s;
              more = [];
              ends =
                  rw (e, index-ok comp inp c f, ◌>>=◌, g, stage_ref)
                    (ap (λ t. ok (input s, t)) (sym (append-nil slots)));
              ready = rw append-nil r;
              valued = λ later.
                  rw (append-nil) (slot-at slots later s c (get_or vs inp d) (rw same at at) b);
            }
        | inl g ↦ record {
          ref = input (length slots);
          more = c ∷ [];
          ends = rw (e, index-ok comp inp c f, ◌>>=◌, g, stage_ref) refl;
          ready =
              All-append (λ c. (v : A) × IsBuilt c v) slots (c ∷ []) r ((get_or vs inp d, b), tt);
          valued = λ later.
              slot-at (slots ++ c ∷ []) later (length slots) c (get_or vs inp d)
                (get_elem?-middle slots c []) b;
        }
      ]

  -- References have the values of these nodes, also when more slots follow.
  record RefsEnd (vals : List A) (slots inps : List ℕ) (r : Result Halt (List StageRef × List ℕ))
      : Type ℓ where
    refs : List StageRef
    more : List ℕ
    ends : r ≡ ok (refs, slots ++ more)
    ready : AreReady (slots ++ more)
    valued :
        (later : List ℕ)
        → map (ref_value tokens d (slot_values ((slots ++ more) ++ later)) vals) refs
          ≡ at_all vs d inps

  stage_refs-End :
      (vals : List A) (slots inps : List ℕ)
      → All (IsGood vals) inps
      → AreReady slots
      → RefsEnd vals slots inps (stage_refs comp local slots inps)
  stage_refs-End vals slots [] g r = record {
    refs = [];
    more = [];
    ends = ap (λ t. ok ([], t)) (sym (append-nil slots));
    ready = rw append-nil r;
    valued = λ later. refl;
  }
  stage_refs-End vals slots (inp ∷ inps) g r =
      let one = stage_ref-Ends vals slots inp g.0 r in
      let rest = stage_refs-End vals (slots ++ one.more) inps g.1 one.ready in
      let all : (slots ++ one.more) ++ rest.more ≡ slots ++ (one.more ++ rest.more) =
        append_assoc slots one.more rest.more in
      record {
        refs = one.ref ∷ rest.refs;
        more = one.more ++ rest.more;
        ends =
            rw (one.ends, ◌>>=◌, rest.ends, stage_refs) (ap (λ t. ok (one.ref ∷ rest.refs, t)) all);
        ready = rw all at rest.ready;
        valued = λ later.
            (let p = reassociate slots one.more rest.more later in
              let first = rw p at (one.valued (rest.more ++ later)) in
              ap₂ (λ a b. a ∷ b) first (rw all at (rest.valued later)));
      }

  at_all-snoc :
      (vs : List A) (is : List ℕ) (i : ℕ)
      → at_all vs d (is ++ i ∷ []) ≡ at_all vs d is ++ get_or vs i d ∷ []
  at_all-snoc vs [] i = refl
  at_all-snoc vs (j ∷ is) i = ap (λ t. get_or vs j d ∷ t) (at_all-snoc vs is i)

  -- An op of the stage behind the members `done`.
  pub record IsMember (done : List ℕ) (op : ℕ) : Type ℓ where
    pub node : EngineNode
    pub found : get_elem? nodes op ≡ some node
    pub good : All (IsGood (at_all vs d done)) node.inputs
    pub meant : get_or vs op d ≡ tokens node.token (at_all vs d node.inputs)

  abbrev pub AreMembers : List ℕ → List ℕ → Type ℓ
  AreMembers done [] = Unit
  AreMembers done (op ∷ ops) = IsMember done op × AreMembers (done ++ op ∷ []) ops

  -- The members have the values of the ops.
  pub record OpsEnd (done slots ops : List ℕ) (r : Result Halt (List StageOp × List ℕ))
      : Type ℓ where
    pub members : List StageOp
    pub more : List ℕ
    pub ends : r ≡ ok (members, slots ++ more)
    pub ready : AreReady (slots ++ more)
    pub valued :
        (later : List ℕ)
        → member_values tokens d (slot_values ((slots ++ more) ++ later)) (at_all vs d done) members
          ≡ at_all vs d (done ++ ops)

  pub stage_ops-End :
      (done slots ops : List ℕ)
      → AreMembers done ops
      → AreReady slots
      → OpsEnd done slots ops (stage_ops nodes comp local slots ops)
  unfolding stage_ops
  stage_ops-End done slots [] g r = record {
    members = [];
    more = [];
    ends = ap (λ t. ok ([], t)) (sym (append-nil slots));
    ready = rw append-nil r;
    valued = λ later. rw append-nil refl;
  }
  stage_ops-End done slots (op ∷ ops) (m, g) r =
      let refs = stage_refs-End (at_all vs d done) slots m.node.inputs m.good r in
      let rest = stage_ops-End (done ++ op ∷ []) (slots ++ refs.more) ops g refs.ready in
      let all : (slots ++ refs.more) ++ rest.more ≡ slots ++ (refs.more ++ rest.more) =
        append_assoc slots refs.more rest.more in
      let new : StageOp = record { token = m.node.token; inputs = refs.refs } in
      record {
        members = new ∷ rest.members;
        more = refs.more ++ rest.more;
        ends =
            rw (index-ok nodes op m.node m.found, ◌>>=◌, refs.ends, ◌>>=◌, rest.ends, stage_ops)
              (ap (λ t. ok (new ∷ rest.members, t)) all);
        ready = rw all at rest.ready;
        valued = λ later.
            (let p = reassociate slots refs.more rest.more later in
              let mine : tokens m.node.token (
                    map
                      (ref_value tokens d
                        (slot_values ((slots ++ (refs.more ++ rest.more)) ++ later))
                        (at_all vs d done))
                      refs.refs)
                  ≡ get_or vs op d =
                ap (tokens m.node.token) (rw p at (refs.valued (rest.more ++ later)))
                ∙ sym m.meant in
              let before : at_all vs d (done ++ op ∷ []) ≡ at_all vs d done ++ get_or vs op d ∷ [] =
                at_all-snoc vs done op in
              let after : (done ++ op ∷ []) ++ ops ≡ done ++ op ∷ ops =
                append_assoc done (op ∷ []) ops in
              rw mine (rw (all, before, after) at (rest.valued later)));
      }

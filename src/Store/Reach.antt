-- ===== src/Store/Reach.antt =====
-- Threads that share a store: each step is one method of one thread, under the lock, and the
-- steps of all threads come in some order.
use graphed_core_mvp.Base.{
  length-append, arith, ◌≤◌, length, ◌≡◌, sym, ◌∙◌, true, some, get_elem?, get_elem?-append, ok,
}
use graphed_core_mvp.Node.{NodeId, NodeKey, key_eq}
use graphed_core_mvp.Store.{Inner, empty, intern, mark_output}
use graphed_core_mvp.Store.Distinct.{nodes_differ}
use graphed_core_mvp.Node.Identity.{key_eq_euclid, key_eq_sym, key_eq_cong}
use graphed_core_mvp.Store.Invariant.{IsValid, empty-IsValid}
use graphed_core_mvp.Store.Intern.{intern-IsValid, intern-nodes, intern-get_elem?}
use graphed_core_mvp.Store.Outputs.{mark_output-IsValid, mark_output-nodes}

-- All `add_*` methods are `intern` of some key; what only reads makes no step.
pub data Step (g : Inner) : Inner → Type 0 where
  add : (k : NodeKey) → Step g (intern k g).0
  mark : (o : NodeId) → Step g (mark_output o g).0

pub data Reach (g : Inner) : Inner → Type 0 where
  here : Reach g g
  next : {h i : Inner} → Reach g h → Step h i → Reach g i

pub Step-IsValid : {g h : Inner} → Step g h → IsValid g → IsValid h
Step-IsValid {g} (add k) v = intern-IsValid k g v
Step-IsValid {g} (mark o) v = mark_output-IsValid o g v

-- Whatever the threads do, the store stays valid.
pub Reach-IsValid : {g h : Inner} → Reach g h → IsValid g → IsValid h
Reach-IsValid here v = v
Reach-IsValid (next r s) v = Step-IsValid s (Reach-IsValid r v)

Step-length : {g h : Inner} → Step g h → length g.nodes ≤ length h.nodes
Step-length {g} (add k) =
    let (extra, e) = intern-nodes k g in rw e (omega (arith, length-append g.nodes extra))
Step-length {g} (mark o) = rw (mark_output-nodes o g) (omega arith)

-- No method takes nodes away.
pub Reach-length : {g h : Inner} → Reach g h → length g.nodes ≤ length h.nodes
Reach-length here = omega arith
Reach-length (next r s) = omega (arith, Reach-length r, Step-length s)

Step-get_elem? :
    {g h : Inner} (i : NodeId) (k : NodeKey)
    → Step g h
    → get_elem? g.nodes i ≡ some k
    → get_elem? h.nodes i ≡ some k
Step-get_elem? {g} i k (add a) f =
    let (extra, e) = intern-nodes a g in rw e (get_elem?-append g.nodes extra i f)
Step-get_elem? {g} i k (mark o) f = rw (mark_output-nodes o g) f

-- An id that a thread was given stays valid and names the same node, whatever other threads do.
pub Reach-get_elem? :
    {g h : Inner} (i : NodeId) (k : NodeKey)
    → Reach g h
    → get_elem? g.nodes i ≡ some k
    → get_elem? h.nodes i ≡ some k
Reach-get_elem? i k here f = f
Reach-get_elem? i k (next r s) f = Step-get_elem? i k s (Reach-get_elem? i k r f)

-- Two threads that intern equal keys get one id, whatever happens in between, starting from any
-- reachable store.
pub race_one_id :
    (a b : NodeKey) {g h : Inner} (i j : NodeId)
    → Reach empty g
    → key_eq a b ≡ true
    → (intern a g).1 ≡ ok i
    → Reach (intern a g).0 h
    → (intern b h).1 ≡ ok j
    → i ≡ j
race_one_id a b {g} {h} i j r same ha between hb =
    let v = Reach-IsValid r empty-IsValid in
    let (x, fx, ex) = intern-get_elem? a g i v ha in
    let w = Reach-IsValid between (intern-IsValid a g v) in
    let (y, fy, ey) = intern-get_elem? b h j w hb in
    let kept = Reach-get_elem? i x (next between (add b)) fx in
    nodes_differ (intern b h).0 i j x y (intern-IsValid b h w) kept fy (
      key_eq_euclid b x y (key_eq_sym b x ∙ sym (key_eq_cong a b x same) ∙ ex)
        (key_eq_sym b y ∙ ey))

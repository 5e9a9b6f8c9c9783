-- ===== src/Store/Distinct.antt =====
-- The nodes of a valid store are pairwise different, so ids and distinct keys correspond.
use graphed_core_mvp.Base.{
  ℕ, zero, suc, ◌≡◌, refl, ap, ◌∙◌, true, false, List, [], ◌∷◌, ◌++◌, none, some, arith, length,
  get_elem?, get_elem?-append,
}
use graphed_core_mvp.Node.{NodeId, NodeKey, key_eq}
use graphed_core_mvp.Node.Identity.{key_eq_sym}
use graphed_core_mvp.Store.{Inner, get}
use graphed_core_mvp.Store.Arena.{Chain, enumerate}
use graphed_core_mvp.Store.Invariant.{Fits, IsValid}
use graphed_core_mvp.Store.Intern.{get_elem?-length}

get-none :
    (i : ℕ) (ks : List NodeKey) (k x : NodeKey) (n : ℕ)
    → get k (enumerate i ks) ≡ none
    → get_elem? ks n ≡ some x
    → key_eq x k ≡ false
unfolding get
get-none i [] k x n h f = cc
get-none i (j ∷ ks) k x zero h f = ground arith
get-none i (j ∷ ks) k x (suc n) h f = ground (arith, get-none (suc i) ks k x n)

-- What stands in `pre` is not equal to anything that was put behind it.
later_differs :
    (pre ks : List NodeKey) (m n : ℕ) (x y : NodeKey)
    → Chain Fits pre ks
    → get_elem? pre m ≡ some x
    → get_elem? ks n ≡ some y
    → key_eq x y ≡ false
later_differs pre [] m n x y c fx fy = cc
later_differs pre (k ∷ ks) m zero x y c fx fy =
    let same : k ≡ y = cc in rw (← same) (get-none 0 pre k x m c.0.fresh fx)
later_differs pre (k ∷ ks) m (suc n) x y c fx fy =
    later_differs (pre ++ k ∷ []) ks m n x y c.1 (get_elem?-append pre (k ∷ []) m fx) fy

Chain-differs :
    (pre ks : List NodeKey) (i j : ℕ) (x y : NodeKey)
    → Chain Fits pre ks
    → get_elem? ks i ≡ some x
    → get_elem? ks j ≡ some y
    → key_eq x y ≡ true
    → i ≡ j
Chain-differs pre [] i j x y c fx fy e = cc
Chain-differs pre (k ∷ ks) zero zero x y c fx fy e = refl
Chain-differs pre (k ∷ ks) zero (suc j) x y c fx fy e =
    let other =
      later_differs (pre ++ k ∷ []) ks (length pre) j x y c.1 (get_elem?-length pre k ∙ fx) fy in
    cc
Chain-differs pre (k ∷ ks) (suc i) zero x y c fx fy e =
    let other =
      later_differs (pre ++ k ∷ []) ks (length pre) i y x c.1 (get_elem?-length pre k ∙ fy) fx in
    cc (key_eq_sym x y)
Chain-differs pre (k ∷ ks) (suc i) (suc j) x y c fx fy e =
    ap suc (Chain-differs (pre ++ k ∷ []) ks i j x y c.1 fx fy e)

-- Two ids of a valid store that hold equal keys are one id.
pub nodes_differ :
    (g : Inner) (i j : NodeId) (x y : NodeKey)
    → IsValid g
    → get_elem? g.nodes i ≡ some x
    → get_elem? g.nodes j ≡ some y
    → key_eq x y ≡ true
    → i ≡ j
nodes_differ g i j x y v fx fy e = Chain-differs [] g.nodes i j x y v.arena fx fy e

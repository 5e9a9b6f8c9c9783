-- ===== src/Tests/Sessions.antt =====
-- A reducer that is fed while a store is built.
use graphed_core_mvp.Base.{◌≡◌, [], false, none, ok}
use graphed_core_mvp.Node.{key_eq, inputs}
use graphed_core_mvp.Store.{
  Inner, empty, intern, intern_valid, first_bad, get, insert, contains, mark_output,
}
use graphed_core_mvp.Store.Reach.{add, mark}
use graphed_core_mvp.Optimizer.Incremental.{IncrementalReducer, fresh, is_identity}
use graphed_core_mvp.Base.{◌≤◌, length, refl}
use graphed_core_mvp.Store.Invariant.{IsValid, empty-IsValid}
use graphed_core_mvp.Store.Reach.{here, next, Reach-IsValid}
use graphed_core_mvp.Optimizer.{single_use, ReductionReport}
use graphed_core_mvp.Optimizer.Engine.{canonicalize}
use graphed_core_mvp.Optimizer.Engine.Sound.{canonicalize-KeepsValues}
use graphed_core_mvp.Optimizer.Fusion.Maximal.{length-range}
use graphed_core_mvp.Optimizer.Pipeline.{reduce_with}
use graphed_core_mvp.Optimizer.Pipeline.Stores.{KeepsShape, reduce_with-IsValid}
use graphed_core_mvp.Tests.Fusions.{apart}
use graphed_core_mvp.Bindings.{step_store, finalize_store}
use graphed_core_mvp.Bindings.Sessions.{opened, turn, method, feed, final, Catches, Session-Catches}
use graphed_core_mvp.Tests.Optimizers.{identity-both, sizes, jet, muon, both}

abbrev after_jet : Inner
after_jet = (intern jet empty).0

abbrev after_muon : Inner
after_muon = (mark_output 0 (intern muon after_jet).0).0

abbrev after_both : Inner
after_both = (intern both after_muon).0

abbrev fed : IncrementalReducer
fed = (finalize_store ok false none after_jet after_muon (step_store after_jet fresh).0).0

-- A step after one node, `finalize` after two, and a third node.
Session-Catches_example : Catches sizes 0 after_both fed
unfolding intern intern_valid first_bad get insert contains mark_output key_eq inputs is_identity
Session-Catches_example =
    Session-Catches sizes 0 after_both fed
      (turn
        (turn
          (turn (turn (turn (turn opened (method (add jet))) feed) (method (add muon)))
            (method (mark 0)))
          (final ok false none after_jet))
        (method (add both)))
      ((λ h. cc), ((λ h. cc), ((λ h. cc identity-both), tt)))

after_muon-IsValid : IsValid after_muon
after_muon-IsValid =
    Reach-IsValid (next (next (next here (add jet)) (add muon)) (mark 0)) empty-IsValid

apart-KeepsShape : KeepsShape (canonicalize apart)
apart-KeepsShape Q g h =
    canonicalize-KeepsValues {A = Unit {0}} (λ t ws. tt) tt Q apart g h
      (record {
        one_each = length-range [] [] [] 0 (length g.nodes);
        one_value = λ i j c e f. refl;
      })

reduce_with-IsValid_example :
    (g' : Inner) × (report : ReductionReport) × (reduce_with after_muon
        (canonicalize apart)
        single_use
      ≡ ok (g', report))
    × IsValid g'
    × (length g'.nodes ≤ length after_muon.nodes)
reduce_with-IsValid_example =
    reduce_with-IsValid (canonicalize apart) after_muon single_use apart-KeepsShape
      after_muon-IsValid

-- ===== src/CustomPricing/Transition.antt =====
-- The checkpoint of src/usagebassoon/collector.py across a run: what stays pending, and when the
-- presence of custom pricing advances.
use usagebassoon.Prelude.{
  ◌≤◌, String, Bool, true, false, List, if◌then◌else◌, Dict, contains, union, difference, string_eq,
  nat_eq, ◌≡◌, refl, arith, lookup-insert, contains-union, contains-difference, beq_refl,
}
use usagebassoon.Usage.{Day}
use usagebassoon.CustomPricing.{
  PricingState, Checkpoints, read_pricing_state, write_pricing_state, TokscaleProfile, Prices,
  checkpoint, refresh_set, prepare_prices, filter_days, filter_prices, acknowledged,
  acknowledge_prices,
}

-- No other run has written a newer checkpoint for the destination.
abbrev pub IsCurrent : TokscaleProfile → Checkpoints → Type 0
IsCurrent p file = (read_pricing_state file p.target).observed_at ≤ p.state.observed_at

read-write :
    (file : Checkpoints) (target : String) (s : PricingState)
    → (read_pricing_state file target).observed_at ≤ s.observed_at
    → read_pricing_state (write_pricing_state file target s) target ≡ s
unfolding write_pricing_state
read-write file target s h = ground (arith, lookup-insert target target s file, beq_refl target)

-- Every method keeps the order of the stamps, and a write that succeeds is what is read.
checkpoint-IsCurrent :
    {A : Type 0} (w : Bool) (p : TokscaleProfile) (file : Checkpoints) (a : A)
    → IsCurrent p file
    → IsCurrent p (checkpoint w p file a).file
unfolding checkpoint
checkpoint-IsCurrent true p file a h = rw (read-write file p.target p.state h) (omega arith)
checkpoint-IsCurrent false p file a h = h

-- `m` will be refreshed: it is pending in the file, or was when the file was last written.
abbrev pub StaysPending : String → String → Checkpoints → Type 0
StaysPending target m file = contains (read_pricing_state file target).pending m ≡ true

checkpoint-StaysPending :
    {A : Type 0} (w : Bool) (p : TokscaleProfile) (file : Checkpoints) (a : A) (m : String)
    → IsCurrent p file
    → contains p.state.pending m ≡ true
    → ((w ≡ false) → StaysPending p.target m file)
    → StaysPending p.target m (checkpoint w p file a).file
unfolding checkpoint
checkpoint-StaysPending true p file a m c h old = rw (read-write file p.target p.state c) h
checkpoint-StaysPending false p file a m c h old = old refl

pub prepare_prices-StaysPending :
    (p : TokscaleProfile) (file : Checkpoints) (known recovered : List String) (m : String)
    → IsCurrent p file
    → contains (refresh_set p known recovered) m ≡ true
    → StaysPending p.target m (prepare_prices true p file known recovered).file
unfolding prepare_prices
prepare_prices-StaysPending p file known recovered m c h =
    checkpoint-StaysPending true
      (record p {
        state = record p.state {
          models = union recovered p.state.models;
          pending = union (refresh_set p known recovered) p.state.pending;
        };
      })
      file tt m c (simp contains-union (ground (arith, h))) (λ e. cc)

filter_prices-StaysPending :
    (w : Bool) (p : TokscaleProfile) (file : Checkpoints) (prices : Prices)
    (existing : Dict Day (List String)) (needed : List String) (m : String)
    → IsCurrent p file
    → StaysPending p.target m file
    → contains p.state.pending m ≡ true
    → contains (filter_prices w p file prices existing needed).profile.ignored_models m ≡ false
    → StaysPending p.target m (filter_prices w p file prices existing needed).file
      × (contains (filter_prices w p file prices existing needed).profile.state.pending m ≡ true)
unfolding filter_prices
filter_prices-StaysPending w p file prices existing needed m c old h i =
    let ignored = (filter_days p existing needed prices).1 in
    let all : List String = union ignored p.ignored_models in
    let kept : contains (difference p.state.pending all) m ≡ true =
      ground (arith, contains-difference p.state.pending all m) in
    (
      checkpoint-StaysPending w
          (record p { state = record p.state { pending = difference p.state.pending all } }) file tt
          m c kept (λ e. old),
      kept,
    )

acknowledge_prices-StaysPending :
    (w : Bool) (p : TokscaleProfile) (file : Checkpoints) (published custom : List String)
    (m : String)
    → IsCurrent p file
    → StaysPending p.target m file
    → contains p.state.pending m ≡ true
    → contains published m ≡ false
    → StaysPending p.target m (acknowledge_prices w p file published custom).file
unfolding acknowledge_prices
acknowledge_prices-StaysPending w p file published custom m c old h unpublished =
    checkpoint-StaysPending w
      (record p { state = acknowledged p.state p.custom_present published custom }) file tt m
      (unfold acknowledged in ground arith)
      (unfold acknowledged in ground (arith, contains-difference p.state.pending published m))
      (λ e. old)

module _ (p : TokscaleProfile) (file : Checkpoints) (c : IsCurrent p file) where
  prepare_prices-IsCurrent :
      (known recovered : List String)
      → let a = prepare_prices true p file known recovered in IsCurrent a.profile a.file
  unfolding prepare_prices
  prepare_prices-IsCurrent known recovered =
      checkpoint-IsCurrent true
        (record p {
          state = record p.state {
            models = union recovered p.state.models;
            pending = union (refresh_set p known recovered) p.state.pending;
          };
        })
        file tt c

  filter_prices-IsCurrent :
      (w : Bool) (prices : Prices) (existing : Dict Day (List String)) (needed : List String)
      → let a = filter_prices w p file prices existing needed in IsCurrent a.profile a.file
  unfolding filter_prices
  filter_prices-IsCurrent w prices existing needed =
      let ignored = union (filter_days p existing needed prices).1 p.ignored_models in
      checkpoint-IsCurrent w
        (record p { state = record p.state { pending = difference p.state.pending ignored } }) file
        tt c

prepare_prices-pending :
    (p : TokscaleProfile) (file : Checkpoints) (known recovered : List String) (m : String)
    → contains (refresh_set p known recovered) m ≡ true
    → contains (prepare_prices true p file known recovered).profile.state.pending m ≡ true
unfolding prepare_prices
prepare_prices-pending p file known recovered m h =
    ground (arith, contains-union (refresh_set p known recovered) p.state.pending m)

refresh_set-pending :
    (p : TokscaleProfile) (known recovered : List String) (m : String)
    → contains p.state.pending m ≡ true
    → contains (refresh_set p known recovered) m ≡ true
unfolding refresh_set
refresh_set-pending p known recovered m h = ground (
  arith,
  contains-union (if p.custom_present then known else union recovered p.state.models)
      p.state.pending m,
)

-- A price that a run must refresh is not lost, if the file has no newer checkpoint of its destination when
-- the run prepares, which a write would leave as it is. Where the preparation succeeded, and whether or not
-- the two later writes do, a model that the run neither ignored nor published is in the set that
-- the next run of the destination refreshes: any run that starts from what the file then holds.
pub refresh-survives :
    (p : TokscaleProfile) (file : Checkpoints) (known recovered : List String) (w2 : Bool)
    (prices : Prices) (existing : Dict Day (List String)) (needed : List String) (w3 : Bool)
    (published custom : List String) (q : TokscaleProfile) (known' recovered' : List String)
    (m : String)
    → IsCurrent p file
    → let a = prepare_prices true p file known recovered in
      let b = filter_prices w2 a.profile a.file prices existing needed in
      let d = acknowledge_prices w3 b.profile b.file published custom in
      contains (refresh_set p known recovered) m ≡ true
      → contains b.profile.ignored_models m ≡ false
      → contains published m ≡ false
      → q.state.pending ≡ (read_pricing_state d.file p.target).pending
      → contains (refresh_set q known' recovered') m ≡ true
unfolding prepare_prices filter_prices
refresh-survives p file known recovered w2 prices existing needed w3 published custom q known'
      recovered' m c h i u e =
    let a = prepare_prices true p file known recovered in
    let b = filter_prices w2 a.profile a.file prices existing needed in
    let c1 : IsCurrent a.profile a.file = prepare_prices-IsCurrent p file c known recovered in
    let s1 : StaysPending p.target m a.file =
      prepare_prices-StaysPending p file known recovered m c h in
    let (s2, h2) =
      filter_prices-StaysPending w2 a.profile a.file prices existing needed m c1 s1
        (prepare_prices-pending p file known recovered m h) i in
    let c2 : IsCurrent b.profile b.file =
      filter_prices-IsCurrent a.profile a.file c1 w2 prices existing needed in
    let s3 = acknowledge_prices-StaysPending w3 b.profile b.file published custom m c2 s2 h2 u in
    refresh_set-pending q known' recovered' m (rw e s3)

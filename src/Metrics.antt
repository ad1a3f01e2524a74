-- ===== src/Metrics.antt =====
-- src/Metrics.{h,cpp}: the short memory for the figures on the status page, its series at two resolutions
-- and the timeline of which class served. std::isfinite is a parameter; the lock is left out.
pub mod Timeline
pub mod Bounds
mod Tests
use ubersdr_ntp.Prelude.{
  ◌%◌, ◌^◌, ℕ, zero, suc, ◌+◌, ◌-◌, ◌==◌, Bool, true, false, not, ◌&&◌, ◌||◌, List, [], ◌∷◌, ◌++◌,
  Option, none, some, length, get_elem?, set, drop, leb, if◌then◌else◌,
}
use ubersdr_ntp.Prelude.Int.{pos}
use ubersdr_ntp.Prelude.Double.{
  Double, add, sub, mul, div, lt, le, floor, lit, from_int, dmin, dmax,
}
use ubersdr_ntp.Prelude.Dict.{Key, eq_key, lookup, insert}

pub record MetricBucket (D : Type 0) : Type 0 where
  pub start : D
  pub sum : D
  pub min : D
  pub max : D
  pub count : ℕ

pub record MetricTier (D : Type 0) : Type 0 where
  pub width : D
  pub capacity : ℕ
  pub done : List (MetricBucket D)
  pub current : MetricBucket D
  pub have_current : Bool

pub record MetricSeriesInfo : Type 0 where
  pub id : Key
  pub label : Key
  pub unit : Key
  pub group : Key
  pub source : Key

pub record Span (D : Type 0) : Type 0 where
  pub start : D
  pub state : Key

pub record Series (D : Type 0) : Type 0 where
  pub info : MetricSeriesInfo
  pub hour : MetricTier D
  pub day : MetricTier D

pub record MetricHistory (D : Type 0) : Type 0 where
  pub series : List (Series D)
  pub index : List (Key × ℕ)
  pub serving : List (Span D)

pub data Range : Type 0 where
  hour day : Range

-- `kMaxChanges`, `kMaxSeries`, `kHourBuckets` and `kDayBuckets`.
unfoldable pub max_changes : ℕ
max_changes = 2000

unfoldable pub max_series : ℕ
max_series = 256

abbrev pub hour_buckets : ℕ
hour_buckets = 60

abbrev pub day_buckets : ℕ
day_buckets = 48

-- The loop that pops the front of a deque while it is longer than a limit.
abbrev pub keep_newest {ℓ} : {A : Type ℓ} → ℕ → List A → List A
keep_newest limit xs = drop (length xs - limit) xs

abbrev pub last_of {ℓ} : {A : Type ℓ} → List A → Option A
last_of [] = none
last_of (x ∷ []) = some x
last_of (x ∷ y ∷ xs) = last_of (y ∷ xs)

module _ {D : Type 0} ⦃f : Double D⦄ where
  abbrev pub keep_sec : D
  keep_sec = mul (lit 25 0) (lit 3600 0)

  abbrev pub bucket_start : MetricTier D → D → D
  bucket_start t unix = mul (from_int (floor (div unix t.width))) t.width

  abbrev pub new_bucket : D → D → MetricBucket D
  new_bucket start value = record {
    start = start;
    sum = value;
    min = value;
    max = value;
    count = 1;
  }

  -- `MetricTier::add`.
  unfoldable pub add_to_tier : MetricTier D → D → D → MetricTier D
  add_to_tier t unix value =
      let start = bucket_start t unix in
      let b = t.current in
      if not t.have_current || lt b.start start
      then record t {
        done = if t.have_current then keep_newest t.capacity (t.done ++ (b ∷ [])) else t.done;
        current = new_bucket start value;
        have_current = true;
      }
      else record t {
        current = record b {
          sum = add b.sum value;
          min = dmin b.min value;
          max = dmax b.max value;
          count = (b.count + 1) % 2 ^ 32;
        };
      }

  unfoldable pub after : D → List (MetricBucket D) → List (MetricBucket D)
  after oldest [] = []
  after oldest (b ∷ bs) = let rest = after oldest bs in if lt oldest b.start then b ∷ rest else rest

  unfoldable pub points : MetricTier D → D → List (MetricBucket D)
  points t now =
      let oldest = sub (bucket_start t now) (mul t.width (from_int (pos t.capacity))) in
      after oldest t.done ++ (if t.have_current then after oldest (t.current ∷ []) else [])

  abbrev pub new_tier : D → ℕ → MetricTier D
  new_tier width capacity = record {
    width = width;
    capacity = capacity;
    done = [];
    current = record { start = lit 0 0; sum = lit 0 0; min = lit 0 0; max = lit 0 0; count = 0 };
    have_current = false;
  }

  abbrev pub new_series : MetricSeriesInfo → Series D
  new_series info = record {
    info = info;
    hour = new_tier (lit 60 0) hour_buckets;
    day = new_tier (lit 1800 0) day_buckets;
  }

  abbrev pub new_history : MetricHistory D
  new_history = record { series = []; index = []; serving = [] }

  abbrev pub sample : Series D → D → D → Series D
  sample e unix value = record e {
    hour = add_to_tier e.hour unix value;
    day = add_to_tier e.day unix value;
  }

  -- The end of `add`, on the series at an index. An index out of range, where C++ leaves the access
  -- undefined, changes nothing here.
  unfoldable pub add_at : MetricHistory D → ℕ → D → D → MetricHistory D
  add_at h i unix value = elim (get_elem? h.series i) [
    | none ↦ h
    | some e ↦ record h { series = set h.series i (sample e unix value) }
  ]

  abbrev pub push_series : MetricHistory D → MetricSeriesInfo → MetricHistory D
  push_series h info = record h {
    series = h.series ++ (new_series info ∷ []);
    index = insert info.id (length h.series) h.index;
  }

  -- `MetricHistory::add`.
  unfoldable pub add_sample :
      (D → Bool) → MetricHistory D → MetricSeriesInfo → D → D → MetricHistory D
  add_sample is_finite h info unix value =
      if not (is_finite value) || not (is_finite unix) then h else elim (lookup info.id h.index) [
        | some i ↦ add_at h i unix value
        | none ↦
            if leb max_series (length h.series)
            then h
            else add_at (push_series h info) (length h.series) unix value
      ]

  unfoldable pub snapshot :
      Range → D → List (Series D) → List (MetricSeriesInfo × List (MetricBucket D))
  snapshot r now [] = []
  snapshot Range.hour now (e ∷ es) = (e.info, points e.hour now) ∷ snapshot Range.hour now es
  snapshot Range.day now (e ∷ es) = (e.info, points e.day now) ∷ snapshot Range.day now es

  -- The first loop at the end of `StateTimeline::set`.
  unfoldable pub drop_unreached : D → List (Span D) → List (Span D)
  drop_unreached from [] = []
  drop_unreached from (s ∷ []) = s ∷ []
  drop_unreached from (s ∷ t ∷ ss) =
      let rest = drop_unreached from (t ∷ ss) in if lt t.start from then rest else s ∷ t ∷ ss

  -- When a change is stamped: not before the last one.
  abbrev pub stamp : Option (Span D) → D → D
  stamp none unix = unix
  stamp (some s) unix = dmax unix s.start

  abbrev pub is_state : Option (Span D) → Key → Bool
  is_state none state = false
  is_state (some s) state = eq_key s.state state

  -- `StateTimeline::set`.
  unfoldable pub set_state : List (Span D) → D → Key → List (Span D)
  set_state ss unix state =
      let at = stamp (last_of ss) unix in
      if is_state (last_of ss) state
      then ss
      else keep_newest max_changes
          (drop_unreached (sub at keep_sec) (ss ++ (record { start = at; state = state } ∷ [])))

  abbrev pub starts_after : D → List (Span D) → Bool
  starts_after from [] = false
  starts_after from (s ∷ ss) = lt from s.start

  abbrev pub is_empty_span : List (Span D) → Bool
  is_empty_span [] = true
  is_empty_span (s ∷ ss) = false

  -- `StateTimeline::since`.
  unfoldable pub since : D → List (Span D) → List (Span D)
  since from [] = []
  since from (s ∷ ss) =
      let rest = since from ss in
      if le from s.start || starts_after from ss || is_empty_span ss then s ∷ rest else rest

  -- `MetricHistory::setServing`.
  unfoldable pub set_serving : (D → Bool) → MetricHistory D → D → Key → MetricHistory D
  set_serving is_finite h unix state =
      if not (is_finite unix) then h else record h { serving = set_state h.serving unix state }

  abbrev pub width_of : Range → D
  width_of Range.hour = lit 60 0
  width_of Range.day = lit 1800 0

  abbrev pub window_sec : Range → D
  window_sec Range.hour = mul (lit 60 0) (from_int (pos hour_buckets))
  window_sec Range.day = mul (lit 1800 0) (from_int (pos day_buckets))

  -- `MetricHistory::serving`.
  unfoldable pub serving_since : MetricHistory D → Range → D → List (Span D)
  serving_since h r now =
      since
        (sub (add (mul (from_int (floor (div now (width_of r)))) (width_of r)) (width_of r))
          (window_sec r))
        h.serving

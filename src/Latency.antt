-- ===== src/Latency.antt =====
-- src/latency/latency_model.h and src/latency/latency_model.cpp: the model of delays. The arithmetic of
-- `double` and the generator with its distributions are parameters.
use hfttoolset.Base.{ℕ, pos, Option, none, some, if◌then◌else◌, ◌+◌, ◌%◌, ◌^◌, ℕ_discrete, []}
use hfttoolset.Base.Assoc.{Assoc, find, insert}
use hfttoolset.Doubles.{Doubles}

-- std::mt19937_64 with the three distributions, which may keep values between draws: a new one from
-- a seed, the same with the generator seeded again, and the draws.
pub record Randoms (D : Doubles) : Type 1 where
  pub Source : Type 0
  pub seeded : ℕ → Source
  pub seed_again : ℕ → Source → Source
  pub uniform : Source → D.Double × Source
  pub normal : Source → D.Double × Source
  pub exponential : Source → D.Double × Source

pub record LatencyProfile (D : Doubles) : Type 0 where
  pub mean_ns : D.Double
  pub stddev_ns : D.Double
  pub p99_ns : D.Double
  pub p999_ns : D.Double
  pub tail_prob : D.Double
  pub min_ns : D.Double

pub record LatencyBreakdown : Type 0 where
  pub network_inbound_ns : ℕ
  pub matching_engine_ns : ℕ
  pub network_outbound_ns : ℕ
  pub md_dissemination_ns : ℕ
  pub total_ns : ℕ

pub record LatencyModel (D : Doubles) (R : Randoms D) : Type 0 where
  pub seed : ℕ
  pub source : R.Source
  pub network_profile : LatencyProfile D
  pub matching_profile : LatencyProfile D
  pub md_profile : LatencyProfile D
  pub default_client_profile : LatencyProfile D
  pub client_profiles : Assoc ℕ (LatencyProfile D)
  pub samples_generated : ℕ

module _ (D : Doubles) where
  -- Of a mean, a deviation, the two percentiles, the probability of a tail, which is in
  -- thousandths, and the floor.
  abbrev pub profile : ℕ → ℕ → ℕ → ℕ → ℕ → ℕ → LatencyProfile D
  profile mean stddev p99 p999 tail floor = record {
    mean_ns = D.literal mean 0;
    stddev_ns = D.literal stddev 0;
    p99_ns = D.literal p99 0;
    p999_ns = D.literal p999 0;
    tail_prob = D.literal tail 3;
    min_ns = D.literal floor 0;
  }

  -- `std::max( a, b )`
  abbrev pub greater : D.Double → D.Double → D.Double
  greater a b = if D.exceeds b a then b else a

module _ (D : Doubles) (R : Randoms D) where
  unfoldable pub new_latency_model : ℕ → LatencyModel D R
  new_latency_model seed = record {
    seed = seed;
    source = R.seeded seed;
    network_profile = profile D 5000 1000 30000 100000 10 500;
    matching_profile = profile D 500 100 2000 10000 5 100;
    md_profile = profile D 2000 500 10000 50000 10 200;
    default_client_profile = profile D 5000 1000 30000 100000 10 500;
    client_profiles = [];
    samples_generated = 0;
  }

  unfoldable pub set_client_profile : ℕ → LatencyProfile D → LatencyModel D R → LatencyModel D R
  set_client_profile trader_id p m = record m {
    client_profiles = insert ℕ_discrete trader_id p m.client_profiles;
  }

  abbrev pub profile_or : LatencyProfile D → Option (LatencyProfile D) → LatencyProfile D
  profile_or d none = d
  profile_or d (some p) = p

  unfoldable pub get_client_profile : ℕ → LatencyModel D R → LatencyProfile D
  get_client_profile trader_id m =
      profile_or m.default_client_profile (find ℕ_discrete trader_id m.client_profiles)

  -- The two regimes of `sample_gaussian_tail`.
  unfoldable pub normal_sample : LatencyProfile D → R.Source → D.Double × R.Source
  normal_sample p source =
      let (z, source') = R.normal source in (D.add p.mean_ns (D.mul z p.stddev_ns), source')

  unfoldable pub tail_sample : LatencyProfile D → R.Source → D.Double × R.Source
  tail_sample p source =
      let tail_scale = D.div (D.sub p.p99_ns p.mean_ns) (D.literal 23 1) in
      let (z, source') = R.exponential source in (D.add p.mean_ns (D.mul z tail_scale), source')

  unfoldable pub sample_gaussian_tail : LatencyProfile D → R.Source → D.Double × R.Source
  sample_gaussian_tail p source =
      let (u, source') = R.uniform source in
      if D.exceeds u p.tail_prob then normal_sample p source' else tail_sample p source'

  unfoldable pub sample : LatencyProfile D → LatencyModel D R → ℕ × LatencyModel D R
  sample p m =
      let (val, source) = sample_gaussian_tail p m.source in
      (
        D.to_size (greater D val p.min_ns),
        record m { source = source; samples_generated = (m.samples_generated + 1) % 2 ^ 64 },
      )

  unfoldable pub sample_network_latency : ℕ → LatencyModel D R → ℕ × LatencyModel D R
  sample_network_latency trader_id m =
      sample (profile_or m.network_profile (find ℕ_discrete trader_id m.client_profiles)) m

  unfoldable pub sample_matching_latency : LatencyModel D R → ℕ × LatencyModel D R
  sample_matching_latency m = sample m.matching_profile m

  unfoldable pub sample_md_latency : LatencyModel D R → ℕ × LatencyModel D R
  sample_md_latency m = sample m.md_profile m

  -- The total is without the dissemination of market data.
  unfoldable pub sample_round_trip : ℕ → LatencyModel D R → LatencyBreakdown × LatencyModel D R
  sample_round_trip trader_id m =
      let (inbound, m1) = sample_network_latency trader_id m in
      let (matching, m2) = sample_matching_latency m1 in
      let (outbound, m3) = sample_network_latency trader_id m2 in
      let (md, m4) = sample_md_latency m3 in
      (
        record {
          network_inbound_ns = inbound;
          matching_engine_ns = matching;
          network_outbound_ns = outbound;
          md_dissemination_ns = md;
          total_ns = (inbound + matching + outbound) % 2 ^ 64;
        },
        m4,
      )

  unfoldable pub add_jitter : ℕ → D.Double → LatencyModel D R → ℕ × LatencyModel D R
  add_jitter base_ns jitter_fraction m =
      let base = D.of_int (pos base_ns) in
      let (z, source) = R.normal m.source in
      let result = D.add base (D.mul (D.mul z base) jitter_fraction) in
      (D.to_size (greater D result D.zero_double), record m { source = source })

  abbrev pub set_network_profile : LatencyProfile D → LatencyModel D R → LatencyModel D R
  set_network_profile p m = record m { network_profile = p }

  abbrev pub set_matching_profile : LatencyProfile D → LatencyModel D R → LatencyModel D R
  set_matching_profile p m = record m { matching_profile = p }

  abbrev pub set_md_profile : LatencyProfile D → LatencyModel D R → LatencyModel D R
  set_md_profile p m = record m { md_profile = p }

  unfoldable pub set_seed : ℕ → LatencyModel D R → LatencyModel D R
  set_seed seed m = record m { seed = seed; source = R.seed_again seed m.source }

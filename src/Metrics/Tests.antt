-- ===== src/Metrics/Tests.antt =====
-- The text of the metrics of a node with a share (src/metrics.rs).
use g_kms.Prelude.{
  ℕ, ◌+◌, ◌/◌, ◌%◌, ltb, ◌<◌, zero, suc, if◌then◌else◌, ◌≡◌, refl, true, [], ◌∷◌, ◌++◌, none, some,
  Bytes, codes, arith,
}
use g_kms.State.{AppState, Config, new_state}
use g_kms.Metrics.Render.{Texts, Reading}
use g_kms.Metrics.Scrape.{IsPlain, free, free-append}
use g_kms.Metrics.Exposed.{IsLegible}

-- Decimal digits, the last of which is written first by the recursion; one step of fuel for each is enough.
abbrev digits : ℕ → ℕ → Bytes
digits zero n = []
digits (suc fuel) n =
    let before = digits fuel (n / 10) in (if ltb n 10 then [] else before) ++ (48 + n % 10) ∷ []

free-digits : (c fuel n : ℕ) → c < 48 → free c (digits fuel n) ≡ true
free-digits c zero n small = refl
free-digits c (suc fuel) n small =
    free-append c (if ltb n 10 then [] else digits fuel (n / 10)) ((48 + n % 10) ∷ [])
      (ground (arith, free-digits c fuel (n / 10))) (ground arith)

digits-IsPlain : (fuel n : ℕ) → IsPlain (digits fuel n)
digits-IsPlain fuel n = (free-digits 10 fuel n (omega arith), free-digits 32 fuel n (omega arith))

abbrev pub texts : Texts
texts = record {
  decimal = λ n. digits 20 n;
  decimal_i64 = λ n. digits 20 n;
  hex = λ b. codes "abcdef";
  version = codes "0.1.0";
}

pub texts-IsLegible : IsLegible texts
texts-IsLegible = record {
  decimal = digits-IsPlain 20;
  decimal_i64 = digits-IsPlain 20;
  hex = λ b. refl;
  version = refl;
}

abbrev pub reading : Reading
reading = record { uptime = 3600; shardless = 3600; viewed = 1000; now = 1001 }

abbrev config : Config
config = record {
  threshold = 2;
  total_nodes = 3;
  self_url = codes "http://a";
  seeds = [];
  sealed_share = none;
  sealed_share_path = none;
  timestamp_tolerance_secs = 300;
  app_id = codes "kms";
}

abbrev pub node : AppState
node = record (new_state config 10) {
  shard = some (record { shard_index = 1; shard_bytes = codes "share"; epoch = 4 });
  group_pubkey = some (codes "master");
}

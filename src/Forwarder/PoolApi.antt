-- ===== src/Forwarder/PoolApi.antt =====
-- `KeyPool` of app/core/key_pool.py as the pool that the forwarder selects from. The draws of the
-- random generator are a stream in the pool's state, two to a call of `select`.
use fcam_gateway.Prelude.{ℕ, ◌+◌, ◌≡◌, refl, false, Option, none, some, elem, subst}
use fcam_gateway.Floats.{Floats}
use fcam_gateway.Models.{ApiKey, Result, ok, err, Session}
use fcam_gateway.KeyPool.{Scheduling, record_success, record_failure}
use fcam_gateway.KeyPool.Reason.{is_4xx_score_failure}
use fcam_gateway.KeyPool.Judge.{Around}
use fcam_gateway.KeyPool.Select.{Pool, Selected, select}
use fcam_gateway.KeyPool.Eligible.{selected-IsUsable}
use fcam_gateway.Forwarder.{KeyPoolApi, Choice}
use fcam_gateway.Forwarder.Pinned.{tick}

module _ (F : Floats) (sched : Scheduling F) where
  open F use {Float}

  pub record State : Type 0 where
    pub pool : Pool F tick
    pub draws : ℕ → Float × Float
    pub calls : ℕ

  -- `selected.api_key`
  abbrev pub api_key_of : Option (Result (Selected F tick)) → Option (Result ApiKey)
  api_key_of none = none
  api_key_of (some (ok sel)) = some (ok sel.api_key)
  api_key_of (some (err f)) = some (err f)

  abbrev pub around : Choice → State → Around F tick
  around c st = record {
    sched = sched;
    now = c.now;
    mono = c.now;
    buckets = some c.buckets;
    cooldown = c.cooldown;
    exclude = c.exclude;
    roll = (st.draws st.calls).0;
    pick = (st.draws st.calls).1;
  }

  abbrev select_key : Choice → State → Session → Option (Result ApiKey) × State × Session
  select_key c st s =
      let r = select F tick (around c st) c.provider st.pool s in
      (api_key_of r.0, record st { pool = r.1; calls = st.calls + 1 }, r.2)

  pub select_untried :
      (c : Choice) (st : State) (s : Session) (key : ApiKey)
      → (select_key c st s).0 ≡ some (ok key)
      → elem key.id c.exclude ≡ false
  select_untried c st s key h = go (select F tick (around c st) c.provider st.pool s).0 refl h
    where
      go :
          (o : Option (Result (Selected F tick)))
          → (select F tick (around c st) c.provider st.pool s).0 ≡ o
          → api_key_of o ≡ some (ok key)
          → elem key.id c.exclude ≡ false
      go none e h = cc
      go (some (err f)) e h = cc
      go (some (ok sel)) e h =
          let q : sel.api_key ≡ key = cc in
          subst (λ (k : ApiKey). elem k.id c.exclude ≡ false) q
            (selected-IsUsable F tick (around c st) c.provider st.pool s sel e).0.not_tried

  -- the pool of the program
  abbrev pub key_pool : KeyPoolApi
  key_pool = record {
    Pool = State;
    select = select_key;
    record_success = λ id st. record st {
      pool = record st.pool { penalties = record_success F st.pool.penalties id };
    };
    record_failure = λ id reason status mono st. record st {
      pool = record st.pool {
        penalties = record_failure F st.pool.penalties id (is_4xx_score_failure reason status) mono;
      };
    };
    select_untried = select_untried;
  }

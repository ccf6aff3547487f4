-- ===== src/MqttCfg/Publish.antt =====
-- mqtt_cfg.c: the lazy creation of the module's lock by several threads, `mqtt_cfg_lock_ensure`.
use hq_led_lamp.Common.{
  ℕ, suc, ◌<◌, ◌≡◌, ◌≢◌, ◌⊎◌, Bool, true, false, Option, none, some, ◌==◌, if◌then◌else◌,
}

-- Where a thread stands in a call. A mutex is the number of its creation.
pub data Place : Type 0 where
  outside absent : Place  -- not in the call; after the load that saw no lock
  created : ℕ → Place  -- after osal_mutex_create
  ensured : Place  -- the call has returned true
  refused : Place  -- the call has returned false
  losing : ℕ → Place  -- the exchange has failed, before osal_mutex_delete

-- `s_lock`, how many mutexes have been created, which of them live, and where the threads stand.
pub record Publication : Type 0 where
  pub lock : Option ℕ
  pub count : ℕ
  pub live : ℕ → Bool
  pub place : ℕ → Place

abbrev pub unpublished : Publication
unpublished = record { lock = none; count = 0; live = λ m. false; place = λ t. Place.outside }

abbrev pub stand : Publication → ℕ → Place → ℕ → Place
stand s t q u = if u == t then q else s.place u

abbrev pub mark : Publication → ℕ → Bool → ℕ → Bool
mark s m b n = if n == m then b else s.live n

-- One atomic action of thread `t`.
pub data PublishStep (s : Publication) : Publication → Type 0 where
  load_published :
      (t m : ℕ)
      → s.place t ≡ Place.outside
      → s.lock ≡ some m
      → PublishStep s (record s { place = stand s t Place.ensured })
  load_absent :
      (t : ℕ)
      → s.place t ≡ Place.outside
      → s.lock ≡ none
      → PublishStep s (record s { place = stand s t Place.absent })
  create :
      (t : ℕ)
      → s.place t ≡ Place.absent
      → PublishStep s (record s {
        count = suc s.count;
        live = mark s s.count true;
        place = stand s t (Place.created s.count);
      })
  create_fails :
      (t : ℕ)
      → s.place t ≡ Place.absent
      → PublishStep s (record s { place = stand s t Place.refused })
  publish :
      (t m : ℕ)
      → s.place t ≡ Place.created m
      → s.lock ≡ none
      → PublishStep s (record s { lock = some m; place = stand s t Place.ensured })
  lose :
      (t m n : ℕ)
      → s.place t ≡ Place.created m
      → s.lock ≡ some n
      → PublishStep s (record s { place = stand s t (Place.losing m) })
  delete :
      (t m : ℕ)
      → s.place t ≡ Place.losing m
      → PublishStep s (record s { live = mark s m false; place = stand s t Place.ensured })
  leave :
      (t : ℕ)
      → s.place t ≡ Place.ensured
      → PublishStep s (record s { place = stand s t Place.outside })
  retry :
      (t : ℕ)
      → s.place t ≡ Place.refused
      → PublishStep s (record s { place = stand s t Place.outside })

pub data PublishReach : Publication → Type 0 where
  start : PublishReach unpublished
  next : {s t : Publication} → PublishReach s → PublishStep s t → PublishReach t

-- A thread owns a mutex that it has created and not published.
abbrev pub owned : Place → Option ℕ
owned (Place.created m) = some m
owned (Place.losing m) = some m
owned _ = none

pub record IsPublished (s : Publication) : Type 0 where
  pub known : (m : ℕ) → s.lock ≡ some m → (m < s.count) × (s.live m ≡ true)
  pub fresh : (t m : ℕ) → owned (s.place t) ≡ some m → (m < s.count) × (s.live m ≡ true)
  pub apart : (t m : ℕ) → owned (s.place t) ≡ some m → s.lock ≢ some m
  pub alone : (t u m : ℕ) → owned (s.place t) ≡ some m → owned (s.place u) ≡ some m → t ≡ u
  pub lost : (t m : ℕ) → s.place t ≡ Place.losing m → s.lock ≢ none
  pub done : (t : ℕ) → s.place t ≡ Place.ensured → s.lock ≢ none
  pub kept :
      (m : ℕ) → s.live m ≡ true → (s.lock ≡ some m) ⊎ ((t : ℕ) × (owned (s.place t) ≡ some m))

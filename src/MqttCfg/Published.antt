-- ===== src/MqttCfg/Published.antt =====
-- mqtt_cfg.c: the module's lock is published once, and no other mutex is left over.
use hq_led_lamp.Common.{
  ℕ, suc, ◌≡◌, ◌≢◌, refl, true, false, Option-cases, none, some, inl, inr, ◌==◌, arith, Bool-cases,
}
use hq_led_lamp.MqttCfg.Publish.{
  Place, Publication, unpublished, stand, mark, PublishStep, PublishReach, owned, IsPublished,
  load_published, load_absent, create, create_fails, publish, lose, delete, leave, retry, start,
  next,
}

unpublished-IsPublished : IsPublished unpublished
unpublished-IsPublished = record {
  known = λ m e. cc;
  fresh = λ t m e. cc;
  apart = λ t m e f. cc;
  alone = λ t u m e f. cc;
  lost = λ t m e f. cc;
  done = λ t e f. cc;
  kept = λ m e. cc;
}

-- A step that moves one thread, to a place without a mutex, from a place without one.
moved-IsPublished :
    (s : Publication) (t : ℕ) (q : Place)
    → IsPublished s
    → owned (s.place t) ≡ none
    → owned q ≡ none
    → (q ≡ Place.ensured → s.lock ≢ none)
    → IsPublished (record s { place = stand s t q })
moved-IsPublished s t q h before after done = record {
  known = h.known;
  fresh = λ u m e. ground (arith, h.fresh u m);
  apart = λ u m e. ground (arith, h.apart u m);
  alone = λ u v m e f. ground (arith, h.alone u v m);
  lost = λ u m e. ground (arith, h.lost u m);
  done = λ u e. ground (arith, h.done u);
  kept =
      λ m e. elim (h.kept m e) [ inl l ↦ inl l | inr (u, o) ↦ inr (u, ground (arith, o, before)) ];
}

create-IsPublished :
    (s : Publication) (t : ℕ)
    → IsPublished s
    → s.place t ≡ Place.absent
    → IsPublished (record s {
      count = suc s.count;
      live = mark s s.count true;
      place = stand s t (Place.created s.count);
    })
create-IsPublished s t h at = record {
  known = λ m e. ground (arith, h.known m e);
  fresh = λ u m e. ground (arith, h.fresh u m);
  apart = λ u m e f. ground (arith, h.apart u m, h.known m f);
  alone = λ u v m e f. ground (arith, h.alone u v m, h.fresh u m, h.fresh v m);
  lost = λ u m e. ground (arith, h.lost u m);
  done = λ u e. ground (arith, h.done u);
  kept = λ m e. elim (Bool-cases (m == s.count)) [
    | inl new ↦ inr (t, ground (arith, new))
    | inr old ↦ elim (h.kept m (ground (arith, e, old))) [
      | inl l ↦ inl l
      | inr (u, o) ↦ inr (u, ground (arith, o, at))
    ]
  ];
}

publish-IsPublished :
    (s : Publication) (t m : ℕ)
    → IsPublished s
    → s.place t ≡ Place.created m
    → s.lock ≡ none
    → IsPublished (record s { lock = some m; place = stand s t Place.ensured })
publish-IsPublished s t m h at free = record {
  known = λ n e. ground (arith, h.fresh t m);
  fresh = λ u n e. ground (arith, h.fresh u n);
  apart = λ u n e f. ground (arith, h.alone u t m, h.alone t u m);
  alone = λ u v n e f. ground (arith, h.alone u v n);
  lost = λ u n e f. cc;
  done = λ u e f. cc;
  kept = λ n e. elim (h.kept n e) [
    | inl l ↦ absurd (ground (arith, l, free))
    | inr (u, o) ↦ elim (Bool-cases (u == t)) [
      | inl own ↦ inl (ground (arith, own, o, at))
      | inr other ↦ inr (u, ground (arith, other, o))
    ]
  ];
}

lose-IsPublished :
    (s : Publication) (t m n : ℕ)
    → IsPublished s
    → s.place t ≡ Place.created m
    → s.lock ≡ some n
    → IsPublished (record s { place = stand s t (Place.losing m) })
lose-IsPublished s t m n h at taken = record {
  known = h.known;
  fresh = λ u k e. ground (arith, h.fresh u k, h.fresh t k);
  apart = λ u k e. ground (arith, h.apart u k, h.apart t k);
  alone = λ u v k e f. ground (arith, h.alone u v k, h.alone u t k, h.alone t v k);
  lost = λ u k e f. cc;
  done = λ u e f. cc;
  kept = λ k e. elim (h.kept k e) [ inl l ↦ inl l | inr (u, o) ↦ inr (u, ground (arith, o, at)) ];
}

delete-IsPublished :
    (s : Publication) (t m : ℕ)
    → IsPublished s
    → s.place t ≡ Place.losing m
    → IsPublished (record s { live = mark s m false; place = stand s t Place.ensured })
delete-IsPublished s t m h at = record {
  known = λ n e. ground (arith, h.known n e, h.apart t m);
  fresh = λ u n e. ground (arith, h.fresh u n, h.alone u t n);
  apart = λ u n e. ground (arith, h.apart u n);
  alone = λ u v n e f. ground (arith, h.alone u v n);
  lost = λ u n e. ground (arith, h.lost u n);
  done = λ u e. ground (arith, h.done u, h.lost t m at);
  kept = λ n e. elim (h.kept n (ground (arith, e))) [
    | inl l ↦ inl l
    | inr (u, o) ↦ inr (u, ground (arith, o, at, e))
  ];
}

PublishStep-IsPublished : {s t : Publication} → PublishStep s t → IsPublished s → IsPublished t
PublishStep-IsPublished {s} (load_published t m at found) h =
    moved-IsPublished s t Place.ensured h (ground (arith, at)) refl (λ e f. cc)
PublishStep-IsPublished {s} (load_absent t at none_yet) h =
    moved-IsPublished s t Place.absent h (ground (arith, at)) refl (λ e. absurd cc)
PublishStep-IsPublished {s} (create t at) h = create-IsPublished s t h at
PublishStep-IsPublished {s} (create_fails t at) h =
    moved-IsPublished s t Place.refused h (ground (arith, at)) refl (λ e. absurd cc)
PublishStep-IsPublished {s} (publish t m at free) h = publish-IsPublished s t m h at free
PublishStep-IsPublished {s} (lose t m n at taken) h = lose-IsPublished s t m n h at taken
PublishStep-IsPublished {s} (delete t m at) h = delete-IsPublished s t m h at
PublishStep-IsPublished {s} (leave t at) h =
    moved-IsPublished s t Place.outside h (ground (arith, at)) refl (λ e. absurd cc)
PublishStep-IsPublished {s} (retry t at) h =
    moved-IsPublished s t Place.outside h (ground (arith, at)) refl (λ e. absurd cc)

PublishReach-IsPublished : {s : Publication} → PublishReach s → IsPublished s
PublishReach-IsPublished start = unpublished-IsPublished
PublishReach-IsPublished (next r st) = PublishStep-IsPublished st (PublishReach-IsPublished r)

-- No step replaces a lock that is published.
published_stays : {s t : Publication} (m : ℕ) → PublishStep s t → s.lock ≡ some m → t.lock ≡ some m
published_stays m (load_published t n at found) e = e
published_stays m (load_absent t at none_yet) e = e
published_stays m (create t at) e = e
published_stays m (create_fails t at) e = e
published_stays m (publish t n at free) e = cc
published_stays m (lose t n k at taken) e = e
published_stays m (delete t n at) e = e
published_stays m (leave t at) e = e
published_stays m (retry t at) e = e

-- In every interleaving of threads in mqtt_cfg_lock_ensure, a thread whose call has returned true finds a
-- lock published, one that has not been deleted and that no later step replaces; and once no thread holds a
-- mutex of its own, that one is the only mutex left.
pub published_once :
    (s : Publication) (t : ℕ)
    → PublishReach s
    → s.place t ≡ Place.ensured
    → (m : ℕ) × (s.lock ≡ some m)
      × (s.live m ≡ true)
      × ((s' : Publication) → PublishStep s s' → s'.lock ≡ some m)
      × (((u : ℕ) → owned (s.place u) ≡ none) → (n : ℕ) → s.live n ≡ true → n ≡ m)
published_once s t r at =
    let h = PublishReach-IsPublished r in
    elim (Option-cases s.lock) [
      | inl e ↦ absurd (h.done t at e)
      | inr (m, e) ↦ (
        m,
        e,
        (h.known m e).1,
        λ s' st. published_stays m st e,
        λ idle n living. elim (h.kept n living) [
          | inl l ↦ cc
          | inr (u, o) ↦ absurd (ground (arith, o, idle u))
        ],
      )
    ]

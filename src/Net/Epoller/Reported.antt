-- ===== src/Net/Epoller/Reported.antt =====
-- ham/net/Epoller.cc: `wait`, and the channels that it reports.
use mathlib.Core.Path.{ap₂}
use ham.Net.Epoller.Synced.{==→≡, added≢new, wanted, SyncedAt, IsSynced}
use ham.Net.Epoller.Kernel.{EpollKernel, put-same, put-other}
use ham.Net.Epoller.{Epoller, wait, ready, fill_each, fill_active_channels, set_revent}
use ham.Net.Channel.{Channel, Events, Status, added, new}
use ham.Base.{
  le→leb, Returns-bind, subst, ==-self, Bool-cases, ℕ, ◌*◌, ◌≤◌, ◌<◌, ◌≡◌, refl, sym, ap, ◌∙◌, ◌≢◌,
  inl, inr, false, Option, none, some, List, [], ◌∷◌, arith, ◌==◌, length, Returns,
}

-- The kernel knows the channels by their addresses: it reports some that are added.
abbrev pub AllAdded : (ℕ → Channel) → List (ℕ × Events) → Type 0
AllAdded channels [] = Unit
AllAdded channels ((c, e) ∷ es) = ((channels c).status ≡ added) × AllAdded channels es

abbrev pub Omits : ℕ → List (ℕ × Events) → Type 0
Omits a [] = Unit
Omits a ((c, e) ∷ es) = ((c == a) ≡ false) × Omits a es

-- Each channel is reported once.
abbrev pub AllOnce : List (ℕ × Events) → Type 0
AllOnce [] = Unit
AllOnce ((c, e) ∷ es) = Omits c es × AllOnce es

-- The channels of a report, as they are after it.
abbrev pub AllMarked : (ℕ → Channel) → (ℕ → Channel) → List (ℕ × Events) → Type 0
AllMarked before after [] = Unit
AllMarked before after ((c, e) ∷ es) =
    (after c ≡ record (before c) { revent = e }) × AllMarked before after es

abbrev pub reported : List (ℕ × Events) → List ℕ
reported [] = []
reported ((c, e) ∷ es) = c ∷ reported es

wanted_ap : (c d : Channel) → c.status ≡ d.status → c.event ≡ d.event → wanted c ≡ wanted d
wanted_ap c d e e' =
    ap₂ (λ (s : Status) (v : Events). wanted (record c { status = s; event = v })) e e'

-- A channel but for its `revent_`.
record Alike (c d : Channel) : Type 0 where
  same_fd : d.fd ≡ c.fd
  same_status : d.status ≡ c.status
  same_event : d.event ≡ c.event

module _ {K : Type 0} where
  set_revent-at :
      (e : Events) (channel : ℕ) (p : Epoller K)
      → (set_revent e channel p).channels channel ≡ record (p.channels channel) { revent = e }
  unfolding set_revent
  set_revent-at e channel p =
      put-same channel (record (p.channels channel) { revent = e }) p.channels

  set_revent-other :
      (e : Events) (channel a : ℕ) (p : Epoller K)
      → (channel == a) ≡ false
      → (set_revent e channel p).channels a ≡ p.channels a
  unfolding set_revent
  set_revent-other e channel a p d =
      put-other channel a (record (p.channels channel) { revent = e }) p.channels d

  set_revent-Alike :
      (e : Events) (channel : ℕ) (p : Epoller K) (a : ℕ)
      → Alike (p.channels a) ((set_revent e channel p).channels a)
  set_revent-Alike e channel p a = elim (Bool-cases (channel == a)) [
    | inl k ↦
        subst (λ (i : ℕ). Alike (p.channels i) ((set_revent e channel p).channels i))
          (==→≡ channel a k)
          (rw (set_revent-at e channel p)
            (record { same_fd = refl; same_status = refl; same_event = refl }))
    | inr k ↦
        rw (set_revent-other e channel a p k)
          (record { same_fd = refl; same_status = refl; same_event = refl })
  ]

module _ {K : Type 0} (kernel : EpollKernel K) where
  SyncedAt-revent :
      (e : Events) (channel : ℕ) (p : Epoller K) (fd : ℕ) (m : Option ℕ)
      → SyncedAt kernel p fd m
      → SyncedAt kernel (set_revent e channel p) fd m
  unfolding set_revent
  SyncedAt-revent e channel p fd none h = h
  SyncedAt-revent e channel p fd (some c) h =
      let k = set_revent-Alike e channel p c in
      (
        k.same_fd ∙ h.0,
        λ eq. h.1 (sym k.same_status ∙ eq),
        h.2
            ∙ wanted_ap (p.channels c) ((set_revent e channel p).channels c) (sym k.same_status)
                (sym k.same_event),
      )

  set_revent-IsSynced :
      (e : Events) (channel : ℕ) (p : Epoller K)
      → IsSynced kernel p
      → IsSynced kernel (set_revent e channel p)
  unfolding set_revent
  set_revent-IsSynced e channel p h = record {
    mapped = λ fd. SyncedAt-revent e channel p fd (p.channel_map fd) (h.mapped fd);
    added_once = λ a used.
        let k = set_revent-Alike e channel p a in
        ap p.channel_map k.same_fd ∙ h.added_once a λ eq. used (k.same_status ∙ eq);
  }

  AllAdded-revent :
      (e : Events) (channel : ℕ) (p : Epoller K) (es : List (ℕ × Events))
      → AllAdded p.channels es
      → AllAdded (set_revent e channel p).channels es
  AllAdded-revent e channel p [] h = tt
  AllAdded-revent e channel p ((c, v) ∷ es) h =
      ((set_revent-Alike e channel p c).same_status ∙ h.0, AllAdded-revent e channel p es h.1)

  AllMarked-revent :
      (e : Events) (channel : ℕ) (p : Epoller K) (after : ℕ → Channel) (es : List (ℕ × Events))
      → Omits channel es
      → AllMarked (set_revent e channel p).channels after es
      → AllMarked p.channels after es
  AllMarked-revent e channel p after [] o h = tt
  AllMarked-revent e channel p after ((c, v) ∷ es) o h = (
    h.0
        ∙ ap (λ (d : Channel). record d { revent = v })
            (set_revent-other e channel c p (flip channel c o.0)),
    AllMarked-revent e channel p after es o.1 h.1,
  )
    where
      flip : (a b : ℕ) → (b == a) ≡ false → (a == b) ≡ false
      flip a b h = ground arith

  -- What a report leaves: its channels in order, each with its events, and everything else as it was.
  pub record Reports (p : Epoller K) (es : List (ℕ × Events)) (r : List ℕ × Epoller K)
      : Type 0 where
    pub active : r.0 ≡ reported es
    pub synced : IsSynced kernel r.1
    pub marked : AllMarked p.channels r.1.channels es
    pub others : (a : ℕ) → Omits a es → r.1.channels a ≡ p.channels a

  fill_each-Reports :
      (es : List (ℕ × Events)) (p : Epoller K)
      → IsSynced kernel p
      → AllAdded p.channels es
      → AllOnce es
      → Returns (fill_each es p) λ r. Reports p es r × (r.1.ret_size ≡ p.ret_size)
  unfolding fill_each
  fill_each-Reports [] p h on once =
      (record { active = refl; synced = h; marked = tt; others = λ a o. refl }, refl)
  fill_each-Reports ((c, e) ∷ es) p h on once =
      let used : (p.channels c).status ≢ new = λ k. added≢new (sym on.0 ∙ k) in
      rw (h.added_once c used, ==-self c)
        (Returns-bind (fill_each es (set_revent e c p)) _ _ _
          (fill_each-Reports es (set_revent e c p) (set_revent-IsSynced e c p h)
            (AllAdded-revent e c p es on.1) once.1)
          λ r (k, size). (
            record {
              active = ap (λ (cs : List ℕ). c ∷ cs) k.active;
              synced = k.synced;
              marked = (
                k.others c once.0 ∙ set_revent-at e c p,
                AllMarked-revent e c p r.1.channels es once.0 k.marked,
              );
              others = λ a o. k.others a o.1 ∙ set_revent-other e c a p o.0;
            },
            size,
          ))

  -- `wait` over a report of added channels.
  pub wait-Reports :
      (es : List (ℕ × Events)) (p : Epoller K)
      → IsSynced kernel p
      → AllAdded p.channels es
      → AllOnce es
      → length es ≤ p.ret_size
      → 0 < p.ret_size
      → Returns (wait (ready es) p) λ r. Reports p es r × (length es < r.1.ret_size)
  unfolding wait fill_active_channels
  wait-Reports [] p h on once room some_room =
      (record { active = refl; synced = h; marked = tt; others = λ a o. refl }, some_room)
  wait-Reports (e ∷ es) p h on once room some_room = rw (le→leb (length (e ∷ es)) p.ret_size room) (
      Returns-bind (fill_each (e ∷ es) p) _ _ _ (fill_each-Reports (e ∷ es) p h on once)
        λ r (k, size). elim (Bool-cases (length (e ∷ es) == r.1.ret_size)) [
          | inl full ↦ rw full (grown k, ground arith)
          | inr more ↦ rw more (k, ground (arith, size))
        ])
    where
      grown :
          {r : List ℕ × Epoller K}
          → Reports p (e ∷ es) r
          → Reports p (e ∷ es) (r.0, record r.1 { ret_size = r.1.ret_size * 2 })
      grown k = record {
        active = k.active;
        synced = record { mapped = k.synced.mapped; added_once = k.synced.added_once };
        marked = k.marked;
        others = k.others;
      }

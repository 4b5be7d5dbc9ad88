-- ===== src/Broadcaster/Listeners/Limits.antt =====
-- The listeners of a pod without Redis: its counters and limits in every state that it reaches.
use ai_cyber_security_suite.Prelude.{
  ℕ, ◌+◌, ◌≤◌, ◌<◌, ◌≡◌, refl, ap, subst, inl, inr, Bool, true, false, not, Option, none, some,
  List, [], ◌∷◌, if◌then◌else◌, leb, ◌==◌, any, keep, length, arith, Bool-cases, clash,
}
use ai_cyber_security_suite.Alerts.Model.{User}
use ai_cyber_security_suite.Broadcaster.Tickets.{absent}
use ai_cyber_security_suite.Broadcaster.Listeners.{
  max_streams_per_user, max_streams_per_pod, max_admin_streams_per_user, max_admin_streams_global,
  Listener, Pod, Refusal, admitted, refused, set_count, count_user, add_listener, admit,
  unless_objection, objection, register_listener, has_queue, is_of, unregister_listener,
}

abbrev pub empty_pod : Pod
empty_pod = record {
  locals = [];
  admins = [];
  stream_count = 0;
  user_counts = λ u. 0;
  admin_counts = λ u. 0;
  redis_counts = λ u. 0;
}

-- How many listeners a user has.
abbrev pub streams_of : ℕ → List Listener → ℕ
streams_of u [] = 0
streams_of u (l ∷ ls) = (if l.user_id == u then 1 else 0) + streams_of u ls

-- The listener occurs once in a list, and its queue nowhere else in it.
abbrev pub OccursOnce : ℕ → ℕ → List Listener → Type 0
OccursOnce u q [] = ⊥
OccursOnce u q (l ∷ ls) =
    if l.queue == q then (l.user_id ≡ u) × (any (has_queue q) ls ≡ false) else OccursOnce u q ls

abbrev pub listeners : Bool → Pod → List Listener
listeners true p = p.admins
listeners false p = p.locals

-- The states of a pod that has no Redis: listeners register, and those that are registered unregister.
pub data Reachable : Pod → Type 0 where
  fresh_pod : Reachable empty_pod
  opens :
      {p p' : Pod} (u : User) (q : ℕ) (is_admin : Bool)
      → register_listener absent u q is_admin p ≡ admitted p'
      → Reachable p
      → Reachable p'
  closes :
      {p p' : Pod} (u q : ℕ) (is_admin : Bool)
      → OccursOnce u q (listeners is_admin p)
      → unregister_listener absent u q is_admin p ≡ p'
      → Reachable p
      → Reachable p'

-- The counters are exact, and the limits hold.
pub record IsWithin (p : Pod) : Type 0 where
  pub counts_all : p.stream_count ≡ length p.locals + length p.admins
  pub counts_users : (u : ℕ) → p.user_counts u ≡ streams_of u p.locals + streams_of u p.admins
  pub counts_admins : (u : ℕ) → p.admin_counts u ≡ streams_of u p.admins
  pub pod_limit : p.stream_count ≤ max_streams_per_pod
  pub user_limit : (u : ℕ) → p.user_counts u ≤ max_streams_per_user
  pub admin_limit : (u : ℕ) → p.admin_counts u ≤ max_admin_streams_per_user
  pub admin_capacity : length p.admins ≤ max_admin_streams_global

streams_of-kept :
    (v q : ℕ) (test : Listener → Bool)
    → ((l : Listener) → has_queue q l ≡ false → test l ≡ true)
    → (ls : List Listener) → any (has_queue q) ls ≡ false
    → keep test ls ≡ ls
streams_of-kept v q test f [] h = refl
streams_of-kept v q test f (l ∷ ls) h = elim (Bool-cases (has_queue q l)) [
  | inl e ↦ absurd (clash _ (rw e) h)
  | inr e ↦ rw (f l e) (ap (◌∷◌ l) (streams_of-kept v q test f ls (rw e at h)))
]

-- The removal of a listener that occurs once removes one.
module _ (u q : ℕ) (test : Listener → Bool)
    (stays : (l : Listener) → has_queue q l ≡ false → test l ≡ true)
    (goes : (l : Listener) → has_queue q l ≡ true → l.user_id ≡ u → test l ≡ false) where
  remove-length : (ls : List Listener) → OccursOnce u q ls → length (keep test ls) + 1 ≡ length ls
  remove-length [] h = absurd h
  remove-length (l ∷ ls) h = elim (Bool-cases (has_queue q l)) [
    | inl e ↦
        let (mine, others) = rw e at h in
        rw (goes l e mine, streams_of-kept u q test stays ls others) (omega arith)
    | inr e ↦ rw (stays l e) (omega (arith, remove-length ls (rw e at h)))
  ]

  remove-streams :
      (v : ℕ) (ls : List Listener)
      → OccursOnce u q ls
      → streams_of v (keep test ls) + (if v == u then 1 else 0) ≡ streams_of v ls
  remove-streams v [] h = absurd h
  remove-streams v (l ∷ ls) h = elim (Bool-cases (has_queue q l)) [
    | inl e ↦
        let (mine, others) = rw e at h in
        rw (goes l e mine, streams_of-kept u q test stays ls others) (ground arith)
    | inr e ↦ rw (stays l e) (omega (arith, remove-streams v ls (rw e at h)))
  ]

abbrev pub user_counted : ℕ → Pod → Pod
user_counted u p = record p { user_counts = set_count p.user_counts u (p.user_counts u + 1) }

module _ (u q : ℕ) (p : Pod) (w : IsWithin p) (room : p.stream_count < max_streams_per_pod)
    (few : p.user_counts u < max_streams_per_user) where
  local-IsWithin : IsWithin (add_listener u q false (user_counted u p))
  local-IsWithin = record {
    counts_all = omega (arith, w.counts_all);
    counts_users = λ v. ground (arith, w.counts_users v, w.counts_users u);
    counts_admins = w.counts_admins;
    pod_limit = omega arith;
    user_limit = λ v. ground (arith, w.user_limit v);
    admin_limit = w.admin_limit;
    admin_capacity = w.admin_capacity;
  }

  admin-IsWithin :
      p.admin_counts u < max_admin_streams_per_user
      → length p.admins < max_admin_streams_global
      → IsWithin (add_listener u q true (user_counted u p))
  admin-IsWithin fewer space = record {
    counts_all = omega (arith, w.counts_all);
    counts_users = λ v. ground (arith, w.counts_users v, w.counts_users u);
    counts_admins = λ v. ground (arith, w.counts_admins v, w.counts_admins u);
    pod_limit = omega arith;
    user_limit = λ v. ground (arith, w.user_limit v);
    admin_limit = λ v. ground (arith, w.admin_limit v);
    admin_capacity = omega arith;
  }

admitted_inj : {p p' : Pod} → admitted p ≡ admitted p' → p ≡ p'
admitted_inj h = cc

refused-ne {ℓ} : {C : Type ℓ} {e : Refusal} {p : Pod} → refused e ≡ admitted p → C
refused-ne h = absurd (cc)

module _ (q : ℕ) (p : Pod) (w : IsWithin p) (room : p.stream_count < max_streams_per_pod)
    {p' : Pod} where
  admit-IsWithin :
      (u : ℕ) (is_admin : Bool)
      → (is_admin ≡ true
          → (p.admin_counts u < max_admin_streams_per_user)
            × (length p.admins < max_admin_streams_global))
      → admit u q is_admin (count_user absent u p) ≡ admitted p'
      → IsWithin p'
  admit-IsWithin u is_admin f h = elim (Bool-cases (leb max_streams_per_user (p.user_counts u))) [
    | inl e ↦ refused-ne (rw e at h)
    | inr e ↦ by_kind is_admin f (ground arith) (admitted_inj (rw e at h))
  ]
    where
      by_kind :
          (b : Bool)
          → (b ≡ true
              → (p.admin_counts u < max_admin_streams_per_user)
                × (length p.admins < max_admin_streams_global))
          → p.user_counts u < max_streams_per_user
          → add_listener u q b (user_counted u p) ≡ p'
          → IsWithin p'
      by_kind true g few same =
          subst IsWithin same (admin-IsWithin u q p w room few (g refl).0 (g refl).1)
      by_kind false g few same = subst IsWithin same (local-IsWithin u q p w room few)

  unless-IsWithin :
      (u : User) (is_admin : Bool) (o : Option Refusal)
      → objection u is_admin p ≡ o
      → unless_objection absent u q is_admin p o ≡ admitted p'
      → IsWithin p'
  unless-IsWithin u is_admin (some e) k h = refused-ne h
  unless-IsWithin u is_admin none k h = admit-IsWithin u.ident is_admin (allowed is_admin k) h
    where
      allowed :
          (b : Bool)
          → objection u b p ≡ none
          → b ≡ true
          → (p.admin_counts u.ident < max_admin_streams_per_user)
            × (length p.admins < max_admin_streams_global)
      allowed false m t = absurd (cc)
      allowed true m t = ground arith

register-IsWithin :
    (u : User) (q : ℕ) (is_admin : Bool) (p : Pod) {p' : Pod}
    → IsWithin p
    → register_listener absent u q is_admin p ≡ admitted p'
    → IsWithin p'
unfolding register_listener
register-IsWithin u q is_admin p w h = elim (Bool-cases (leb max_streams_per_pod p.stream_count)) [
  | inl e ↦ refused-ne (rw e at h)
  | inr e ↦
      unless-IsWithin q p w (ground arith) u is_admin (objection u is_admin p) refl (rw e at h)
]

unregister-IsWithin :
    (u q : ℕ) (is_admin : Bool) (p : Pod)
    → IsWithin p
    → OccursOnce u q (listeners is_admin p)
    → IsWithin (unregister_listener absent u q is_admin p)
unfolding unregister_listener
unregister-IsWithin u q true p w once =
    let one =
      remove-length u q (λ l. not (has_queue q l)) (λ l h. rw h refl) (λ l h k. rw h refl) p.admins
        once in
    record {
      counts_all = omega (arith, w.counts_all);
      counts_users = λ v. ground (arith, w.counts_users v, w.counts_users u, gone v);
      counts_admins = λ v. ground (arith, w.counts_admins v, w.counts_admins u, gone v);
      pod_limit = omega (arith, w.pod_limit);
      user_limit = λ v. ground (arith, w.user_limit v, w.user_limit u);
      admin_limit = λ v. ground (arith, w.admin_limit v, w.admin_limit u);
      admin_capacity = omega (arith, w.admin_capacity);
    }
  where
    gone :
        (v : ℕ)
        → streams_of v (keep (λ l. not (has_queue q l)) p.admins) + (if v == u then 1 else 0)
          ≡ streams_of v p.admins
    gone v =
        remove-streams u q (λ l. not (has_queue q l)) (λ l h. rw h refl) (λ l h k. rw h refl) v
          p.admins once
unregister-IsWithin u q false p w once =
    let one = remove-length u q (λ l. not (is_of u q l)) stays goes p.locals once in
    record {
      counts_all = omega (arith, w.counts_all);
      counts_users = λ v. ground (arith, w.counts_users v, w.counts_users u, gone v);
      counts_admins = w.counts_admins;
      pod_limit = omega (arith, w.pod_limit);
      user_limit = λ v. ground (arith, w.user_limit v, w.user_limit u);
      admin_limit = w.admin_limit;
      admin_capacity = w.admin_capacity;
    }
  where
    stays : (l : Listener) → has_queue q l ≡ false → not (is_of u q l) ≡ true
    stays l h = ground arith

    goes : (l : Listener) → has_queue q l ≡ true → l.user_id ≡ u → not (is_of u q l) ≡ false
    goes l h k = ground arith

    gone :
        (v : ℕ)
        → streams_of v (keep (λ l. not (is_of u q l)) p.locals) + (if v == u then 1 else 0)
          ≡ streams_of v p.locals
    gone v = remove-streams u q (λ l. not (is_of u q l)) stays goes v p.locals once

empty-IsWithin : IsWithin empty_pod
empty-IsWithin = record {
  counts_all = refl;
  counts_users = λ u. refl;
  counts_admins = λ u. refl;
  pod_limit = omega arith;
  user_limit = λ u. omega arith;
  admin_limit = λ u. omega arith;
  admin_capacity = omega arith;
}

-- In every state that a pod without Redis reaches, its counters are the numbers of its listeners, and
-- there are at most 1000 of them, 5 of each user, 2 admin streams of each user and 10 in all.
pub Reachable-IsWithin : {p : Pod} → Reachable p → IsWithin p
Reachable-IsWithin fresh_pod = empty-IsWithin
Reachable-IsWithin (opens {p} u q is_admin h r) =
    register-IsWithin u q is_admin p (Reachable-IsWithin r) h
Reachable-IsWithin (closes {p} u q is_admin once same r) =
    subst IsWithin same (unregister-IsWithin u q is_admin p (Reachable-IsWithin r) once)

-- ===== src/RateLimit/Window.antt =====
-- In no window does a key get more calls than the limit, and none is refused without need.
use powabase_ai.Prelude.{
  InOrder, ℕ, ◌≤◌, ◌<◌, ◌≡◌, refl, ap, sym, ◌∙◌, Bool, true, false, none, some, List, [], ◌∷◌, ◌++◌,
  String, arith, ◌=s◌, =s_iff, =s_refl, keep, length, length-append, length-keep-le, Bool-cases,
  inl, inr,
}
use powabase_ai.RateLimit.{Limiter, in_window, recorded, is_allowed, allowed_times, logged}

keep-append :
    {A : Type 0} (p : A → Bool) (xs ys : List A) → keep p (xs ++ ys) ≡ keep p xs ++ keep p ys
keep-append p [] ys = refl
keep-append p (x ∷ xs) ys = ground (arith, keep-append p xs ys)

-- What is in the window later was in the window before.
keep-keep_later :
    (w now u : ℕ) (xs : List ℕ)
    → now ≤ u
    → keep (in_window w u) (keep (in_window w now) xs) ≡ keep (in_window w u) xs
keep-keep_later w now u [] h = refl
keep-keep_later w now u (x ∷ xs) h = ground (arith, keep-keep_later w now u xs h)

length-keep_later :
    (w now u : ℕ) (xs : List ℕ)
    → now ≤ u
    → length (keep (in_window w u) xs) ≤ length (keep (in_window w now) xs)
length-keep_later w now u [] h = omega arith
length-keep_later w now u (x ∷ xs) h = ground (arith, length-keep_later w now u xs h)

-- The log and the limiter agree on every window from `t` on, which holds no more than the limit.
record Agrees (key : String) (w limit t : ℕ) (r : Limiter) (log : List ℕ) : Type 0 where
  is_window : r.window ≡ w
  is_limit : r.max_requests ≡ limit
  same :
      (u : ℕ) → t ≤ u → keep (in_window w u) log ≡ keep (in_window w u) (recorded (r.requests key))
  bounded : length (keep (in_window w t) log) ≤ limit

settings-is_allowed :
    (now : ℕ) (k : String) (r : Limiter)
    → ((is_allowed now k r).1.window ≡ r.window)
      × ((is_allowed now k r).1.max_requests ≡ r.max_requests)
unfolding is_allowed
settings-is_allowed now k r = (ground arith, ground arith)

requests_other :
    (now : ℕ) (k key : String) (r : Limiter)
    → (k =s key) ≡ false
    → (is_allowed now k r).1.requests key ≡ r.requests key
unfolding is_allowed
requests_other now k key r h = ground arith

pruned : ℕ → Limiter → String → List ℕ
pruned now r key = keep (in_window r.window now) (recorded (r.requests key))

requests_refused :
    (now : ℕ) (k key : String) (r : Limiter)
    → (k =s key) ≡ true
    → (is_allowed now k r).0 ≡ false
    → ((is_allowed now k r).1.requests key ≡ some (pruned now r key))
      × (r.max_requests ≤ length (pruned now r key))
unfolding is_allowed pruned
requests_refused now k key r same_key n = ground (arith, =s_iff k key)

requests_allowed :
    (now : ℕ) (k key : String) (r : Limiter)
    → (k =s key) ≡ true
    → (is_allowed now k r).0 ≡ true
    → ((is_allowed now k r).1.requests key ≡ some (pruned now r key ++ now ∷ []))
      × (length (pruned now r key) < r.max_requests)
unfolding is_allowed pruned
requests_allowed now k key r same_key n = ground (arith, =s_iff k key)

module _ (key : String) (w limit t now : ℕ) (k : String) (r : Limiter) (log : List ℕ)
    (order : t ≤ now) (ok : Agrees key w limit t r log) where
  pruned_eq : pruned now r key ≡ keep (in_window w now) (recorded (r.requests key))
  unfolding pruned
  pruned_eq = ap (λ x. keep (in_window x now) (recorded (r.requests key))) ok.is_window

  pruned_same :
      (u : ℕ) → now ≤ u → keep (in_window w u) (pruned now r key) ≡ keep (in_window w u) log
  pruned_same u h =
      ap (keep (in_window w u)) pruned_eq
      ∙ keep-keep_later w now u (recorded (r.requests key)) h
      ∙ sym (ok.same u (omega arith))

  length-pruned : length (keep (in_window w now) log) ≡ length (pruned now r key)
  length-pruned = ap length (ok.same now order ∙ sym pruned_eq)

  still_bounded : length (keep (in_window w now) log) ≤ limit
  still_bounded = omega (arith, length-keep_later w t now log order, ok.bounded)

  Agrees-other : (k =s key) ≡ false → Agrees key w limit now (is_allowed now k r).1 log
  Agrees-other h = record {
    is_window = (settings-is_allowed now k r).0 ∙ ok.is_window;
    is_limit = (settings-is_allowed now k r).1 ∙ ok.is_limit;
    same = λ u g. rw (requests_other now k key r h) (ok.same u (omega arith));
    bounded = still_bounded;
  }

  Agrees-refused :
      (k =s key) ≡ true
      → (is_allowed now k r).0 ≡ false
      → Agrees key w limit now (is_allowed now k r).1 log
  Agrees-refused h n = record {
    is_window = (settings-is_allowed now k r).0 ∙ ok.is_window;
    is_limit = (settings-is_allowed now k r).1 ∙ ok.is_limit;
    same = λ u g. rw (requests_refused now k key r h n).0 (sym (pruned_same u g));
    bounded = still_bounded;
  }

  Agrees-allowed :
      (k =s key) ≡ true
      → (is_allowed now k r).0 ≡ true
      → Agrees key w limit now (is_allowed now k r).1 (log ++ now ∷ [])
  Agrees-allowed h n = record {
    is_window = (settings-is_allowed now k r).0 ∙ ok.is_window;
    is_limit = (settings-is_allowed now k r).1 ∙ ok.is_limit;
    same = λ u g.
        simp ((requests_allowed now k key r h n).0, keep-append)
          (ap (λ l. l ++ keep (in_window w u) (now ∷ [])) (sym (pruned_same u g)));
    bounded = rw keep-append (
        omega (
          arith,
          length-append (keep (in_window w now) log) (keep (in_window w now) (now ∷ [])),
          length-keep-le (in_window w now) (now ∷ []),
          length-pruned,
          (requests_allowed now k key r h n).1,
          ok.is_limit,
        ));
  }

Agrees-step :
    (key : String) (w limit t now : ℕ) (k : String) (r : Limiter) (log : List ℕ)
    → t ≤ now
    → Agrees key w limit t r log
    → Agrees key w limit now (is_allowed now k r).1 (logged key now k (is_allowed now k r).0 log)
Agrees-step key w limit t now k r log o ok = elim (Bool-cases (k =s key)) [
  | inl same ↦ elim (Bool-cases (is_allowed now k r).0) [
    | inl allowed ↦ rw (same, allowed) (Agrees-allowed key w limit t now k r log o ok same allowed)
    | inr denied ↦ rw (same, denied) (Agrees-refused key w limit t now k r log o ok same denied)
  ]
  | inr other ↦ rw other (Agrees-other key w limit t now k r log o ok other)
]

Agrees-run :
    (key : String) (w limit t u : ℕ) (calls : List (ℕ × String)) (r : Limiter) (log : List ℕ)
    → InOrder t calls u
    → Agrees key w limit t r log
    → let (log', r') = allowed_times key calls r log in Agrees key w limit u r' log'
unfolding allowed_times
Agrees-run key w limit t u [] r log o ok = record {
  is_window = ok.is_window;
  is_limit = ok.is_limit;
  same = λ v g. ok.same v (omega arith);
  bounded = omega (arith, length-keep_later w t u log o, ok.bounded);
}
Agrees-run key w limit t u ((now, k) ∷ rest) r log o ok =
    Agrees-run key w limit now u rest (is_allowed now k r).1
      (logged key now k (is_allowed now k r).0 log) o.1
      (Agrees-step key w limit t now k r log o.0 ok)

Agrees-start :
    (key : String) (t : ℕ) (r : Limiter)
    → r.requests key ≡ none
    → Agrees key r.window r.max_requests t r []
Agrees-start key t r h = record {
  is_window = refl;
  is_limit = refl;
  same = λ u g. rw h refl;
  bounded = omega arith;
}

-- A limiter that has nothing of a key serves calls of any keys in the order of the clock. At every
-- time `u` from the last call on, the calls of the key that were allowed and are less than a window
-- old are no more than the limit; and if a call of the key at `u` is then refused, they are exactly
-- as many as the limit.
pub allowed_times-window :
    (key : String) (t u : ℕ) (calls : List (ℕ × String)) (r : Limiter)
    → r.requests key ≡ none
    → InOrder t calls u
    → let (log, r') = allowed_times key calls r [] in
      (length (keep (in_window r.window u) log) ≤ r.max_requests)
      × ((is_allowed u key r').0 ≡ false
          → length (keep (in_window r.window u) log) ≡ r.max_requests)
allowed_times-window key t u calls r h o =
    let ok = Agrees-run key r.window r.max_requests t u calls r [] o (Agrees-start key t r h) in
    (
      ok.bounded,
      λ n.
          let r' : Limiter = (allowed_times key calls r []).1 in
          let full = (requests_refused u key key r' (=s_refl key) n).1 in
          omega (
            arith,
            full,
            ok.bounded,
            ok.is_limit,
            length-pruned key r.window r.max_requests u u key r' (allowed_times key calls r []).0
                (omega arith) ok,
          ),
    )

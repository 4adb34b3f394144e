-- ===== src/Limiter/Bounds.antt =====
-- The limiter stays within its limits, whoever logs in.
use dnf_mock_server_client.Prelude.{
  ℕ, nat_eq, ◌≤◌, ◌≡◌, ap, ◌∙◌, inl, inr, true, false, ◌&&◌, ◌||◌, not, Option, none, some, List,
  [], ◌∷◌, arith, leb, Bool-cases,
}
use dnf_mock_server_client.Map.{Map, find, contains, size}
use dnf_mock_server_client.Limiter.{
  bytes_eq, Limiter, LimiterOptions, is_valid_options, new_limiter, normalize_account_login_id,
  ip_key, find_and_prune, is_full, make_room, admit, try_acquire, release,
}
use dnf_mock_server_client.Limiter.Histories.{
  IsBounded, prune_expired-IsBounded, find_and_prune-IsBounded, note_attempt-IsBounded,
  find-prune_expired-none,
}

pub record Inv (l : Limiter) : Type 0 where
  pub options_ok : is_valid_options l.options ≡ true
  pub ips : IsBounded l.options.max_attempts_per_ip l.options.max_tracked_ips l.ip_attempts
  pub accounts :
      IsBounded l.options.max_attempts_per_account l.options.max_tracked_accounts l.account_attempts
  pub jobs : l.stats.concurrent_password_jobs ≤ l.options.max_concurrent_password_jobs

-- Making room keeps the limits and what the table says of the key.
make_room-IsBounded :
    (limit tracked window now : ℕ) (k : List ℕ) (entry : Option (List ℕ))
    (m : Map (List ℕ) (List ℕ))
    → IsBounded limit tracked m
    → find k m ≡ entry
    → IsBounded limit tracked (make_room window now tracked entry m)
      × (find k (make_room window now tracked entry m) ≡ entry)
unfolding make_room
make_room-IsBounded limit tracked window now k none m b e =
    elim (Bool-cases (leb tracked (size m))) [
      | inl full ↦ rw (full) (
        prune_expired-IsBounded limit tracked m b window now,
        find-prune_expired-none window now k m b.distinct e,
      )
      | inr room ↦ rw (room) (b, e)
    ]
make_room-IsBounded limit tracked window now k (some h) m b e = (b, e)

module _ (l : Limiter) (v : Inv l) where
  admit-Inv :
      (now : ℕ) (ip account : List ℕ)
      → is_full l.options.max_attempts_per_ip (find ip l.ip_attempts) ≡ false
      → is_full l.options.max_attempts_per_account (find account l.account_attempts) ≡ false
      → Inv
          (admit l now ip account
            (not (contains ip l.ip_attempts))
            (not (contains account l.account_attempts))).0
  unfolding admit is_valid_options
  admit-Inv now ip account few few' =
      elim (Bool-cases (
        (not (contains ip l.ip_attempts) && leb l.options.max_tracked_ips (size l.ip_attempts))
        || (not (contains account l.account_attempts)
            && leb l.options.max_tracked_accounts (size l.account_attempts)))) [
              | inl full ↦ record {
                options_ok = ground (arith, v.options_ok);
                ips = ground (arith, v.ips);
                accounts = ground (arith, v.accounts);
                jobs = ground (arith, v.jobs);
              }
              | inr room ↦
                  let ips' =
                    note_attempt-IsBounded l.options.max_attempts_per_ip l.options.max_tracked_ips
                      l.ip_attempts v.ips now ip (ground (arith, v.options_ok))
                      (λ missing. ground arith) few in
                  let accounts' =
                    note_attempt-IsBounded l.options.max_attempts_per_account
                      l.options.max_tracked_accounts l.account_attempts v.accounts now account
                      (ground (arith, v.options_ok)) (λ missing. ground arith) few' in
                  record {
                    options_ok = ground (arith, v.options_ok);
                    ips = ground (arith, v.ips, ips');
                    accounts = ground (arith, v.accounts, accounts');
                    jobs = ground (arith, v.jobs);
                  }
            ]

  with_tables :
      (ips accounts : Map (List ℕ) (List ℕ))
      → IsBounded l.options.max_attempts_per_ip l.options.max_tracked_ips ips
      → IsBounded l.options.max_attempts_per_account l.options.max_tracked_accounts accounts
      → Inv (record l { ip_attempts = ips; account_attempts = accounts })
  with_tables ips accounts b b' = record {
    options_ok = v.options_ok;
    ips = b;
    accounts = b';
    jobs = v.jobs;
  }

  release-Inv : Inv (release l)
  unfolding release
  release-Inv = record {
    options_ok = ground (arith, v.options_ok);
    ips = ground (arith, v.ips);
    accounts = ground (arith, v.accounts);
    jobs = ground (arith, v.jobs);
  }

try_acquire-Inv :
    (l : Limiter) (now : ℕ) (address login_id : List ℕ)
    → Inv l
    → Inv (try_acquire l now address login_id).0
unfolding try_acquire
try_acquire-Inv l now address login_id v =
    let o = l.options in
    let ip = ip_key address in
    let account = normalize_account_login_id login_id in
    let w = o.attempt_window in
    let (b, found) =
      find_and_prune-IsBounded o.max_attempts_per_ip o.max_tracked_ips l.ip_attempts v.ips w now
        ip in
    let (b', found') =
      find_and_prune-IsBounded o.max_attempts_per_account o.max_tracked_accounts l.account_attempts
        v.accounts w now account in
    let by_ip = find_and_prune w now l.ip_attempts ip in
    let by_account = find_and_prune w now l.account_attempts account in
    let (c, kept) =
      make_room-IsBounded o.max_attempts_per_ip o.max_tracked_ips w now ip by_ip.1 by_ip.0 b
        found in
    let (c', kept') =
      make_room-IsBounded o.max_attempts_per_account o.max_tracked_accounts w now account
        by_account.1 by_account.0 b' found' in
    elim (Bool-cases (is_full o.max_attempts_per_ip by_ip.1)) [
      | inl full ↦ record {
        options_ok = ground (arith, v.options_ok);
        ips = ground (arith, b);
        accounts = ground (arith, v.accounts);
        jobs = ground (arith, v.jobs);
      }
      | inr few ↦ elim (Bool-cases (is_full o.max_attempts_per_account by_account.1)) [
        | inl full ↦ record {
          options_ok = ground (arith, v.options_ok);
          ips = ground (arith, b);
          accounts = ground (arith, b');
          jobs = ground (arith, v.jobs);
        }
        | inr few' ↦
            let m : Limiter = record l {
              ip_attempts = make_room w now o.max_tracked_ips by_ip.1 by_ip.0;
              account_attempts = make_room w now o.max_tracked_accounts by_account.1 by_account.0;
            } in
            let u : Inv m = with_tables l v m.ip_attempts m.account_attempts c c' in
            rw (few, few')
              (admit-Inv m u now ip account (ap (is_full o.max_attempts_per_ip) kept ∙ few)
                (ap (is_full o.max_attempts_per_account) kept' ∙ few'))
      ]
    ]

pub data Call : Type 0 where
  acquire : ℕ → List ℕ → List ℕ → Call
  end_job : Call

unfoldable pub step : Limiter → Call → Limiter
step l (acquire now address login_id) = (try_acquire l now address login_id).0
step l end_job = release l

unfoldable pub run : Limiter → List Call → Limiter
run l [] = l
run l (c ∷ cs) = run (step l c) cs

run-Inv : (l : Limiter) (cs : List Call) → Inv l → Inv (run l cs)
unfolding run step
run-Inv l [] v = v
run-Inv l (acquire now address login_id ∷ cs) v =
    run-Inv (try_acquire l now address login_id).0 cs (try_acquire-Inv l now address login_id v)
run-Inv l (end_job ∷ cs) v = run-Inv (release l) cs (release-Inv l v)

new_limiter-Inv : (o : LimiterOptions) (l : Limiter) → new_limiter o ≡ some l → Inv l
unfolding new_limiter find
new_limiter-Inv o l e =
    let valid : is_valid_options o ≡ true = ground arith in
    let none_yet : (limit tracked : ℕ) → IsBounded limit tracked [] =
      λ limit tracked. record { distinct = tt; tracks = omega arith; counts = λ k h e. cc } in
    record {
      options_ok = ground arith;
      ips = ground (arith, none_yet l.options.max_attempts_per_ip l.options.max_tracked_ips);
      accounts =
          ground
            (arith, none_yet l.options.max_attempts_per_account l.options.max_tracked_accounts);
      jobs = ground arith;
    }

-- Whatever attempts are made and ended on a new limiter, at whatever times: no more addresses and
-- accounts are tracked than the options allow, each with at least one remembered attempt and no more
-- than its limit, and no more password jobs run at once than the options allow.
pub limiter_run-Inv :
    (o : LimiterOptions) (l : Limiter) (cs : List Call) → new_limiter o ≡ some l → Inv (run l cs)
limiter_run-Inv o l cs e = run-Inv l cs (new_limiter-Inv o l e)

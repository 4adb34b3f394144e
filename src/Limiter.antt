-- ===== src/Limiter.antt =====
-- The limiter of login attempts: include/LoginAttemptLimiter.h and src/LoginAttemptLimiter.cpp. A
-- text is a list of bytes, and the time, in milliseconds, is an argument; a time `t` is at or before
-- the cutoff `now - window` if t + window <= now. The counters of the statistics are 64-bit numbers.
pub mod Histories
pub mod Bounds
use dnf_mock_server_client.Prelude.{
  ℕ, nat_eq, ◌+◌, ◌-◌, ◌%◌, ◌≡◌, Bool, true, false, ◌&&◌, ◌||◌, not, Option, none, some, List, [],
  ◌∷◌, ◌++◌, map, arith, ltb, leb, ◌==◌, if◌then◌else◌, is_some, Eq, length, u64_mod, ◌↔◌,
}
use dnf_mock_server_client.Prelude.Except.{◌>>=◌, ◌>>◌}
use dnf_mock_server_client.Map.{Map, find, contains, assign, erase, size}

abbrev pub same_bytes : List ℕ → List ℕ → Bool
same_bytes [] [] = true
same_bytes [] (y ∷ ys) = false
same_bytes (x ∷ xs) [] = false
same_bytes (x ∷ xs) (y ∷ ys) = x == y && same_bytes xs ys

pub same_bytes_iff : (xs ys : List ℕ) → (same_bytes xs ys ≡ true) ↔ (xs ≡ ys)
same_bytes_iff [] [] = ground arith
same_bytes_iff [] (y ∷ ys) = (λ h. cc, λ h. cc)
same_bytes_iff (x ∷ xs) [] = (λ h. cc, λ h. cc)
same_bytes_iff (x ∷ xs) (y ∷ ys) = ground (arith, same_bytes_iff xs ys)

instance abbrev pub bytes_eq : Eq (List ℕ)
bytes_eq = record { beq = same_bytes; beq_iff = same_bytes_iff }

pub record LimiterOptions : Type 0 where
  pub max_attempts_per_ip : ℕ
  pub max_attempts_per_account : ℕ
  pub max_concurrent_password_jobs : ℕ
  pub max_tracked_ips : ℕ
  pub max_tracked_accounts : ℕ
  pub attempt_window : ℕ

pub record LimiterStats : Type 0 where
  pub concurrent_password_jobs : ℕ
  pub accepted_attempts : ℕ
  pub rejected_by_ip : ℕ
  pub rejected_by_account : ℕ
  pub rejected_by_concurrency : ℕ
  pub rejected_by_tracking_capacity : ℕ

pub data LoginAdmissionStatus : Type 0 where
  accepted rate_limited service_busy : LoginAdmissionStatus

pub record Limiter : Type 0 where
  pub options : LimiterOptions
  pub ip_attempts : Map (List ℕ) (List ℕ)
  pub account_attempts : Map (List ℕ) (List ℕ)
  pub stats : LimiterStats

abbrev pub inc64 : ℕ → ℕ
inc64 n = (n + 1) % u64_mod

unfoldable pub is_valid_options : LimiterOptions → Bool
is_valid_options o =
    ltb 0 o.max_attempts_per_ip
    && ltb 0 o.max_attempts_per_account
    && ltb 0 o.max_concurrent_password_jobs
    && ltb 0 o.max_tracked_ips
    && ltb 0 o.max_tracked_accounts
    && ltb 0 o.attempt_window

-- The constructor; none stands for the exception.
unfoldable pub new_limiter : LimiterOptions → Option Limiter
unfolding is_valid_options
new_limiter o =
    if is_valid_options o
    then some (record {
      options = o;
      ip_attempts = [];
      account_attempts = [];
      stats = record {
        concurrent_password_jobs = 0;
        accepted_attempts = 0;
        rejected_by_ip = 0;
        rejected_by_account = 0;
        rejected_by_concurrency = 0;
        rejected_by_tracking_capacity = 0;
      };
    })
    else none

-- std::tolower on each byte, in the "C" locale.
unfoldable pub normalize_account_login_id : List ℕ → List ℕ
normalize_account_login_id login_id = map (λ c. if leb 65 c && leb c 90 then c + 32 else c) login_id

-- "unknown".
abbrev pub unknown : List ℕ
unknown = 117 ∷ 110 ∷ 107 ∷ 110 ∷ 111 ∷ 119 ∷ 110 ∷ []

abbrev pub ip_key : List ℕ → List ℕ
ip_key [] = unknown
ip_key (c ∷ cs) = c ∷ cs

-- Whether the history is as long as it may be.
abbrev pub is_full : ℕ → Option (List ℕ) → Bool
is_full limit none = false
is_full limit (some history) = leb limit (length history)

-- m[key].push_back(now).
unfoldable pub note_attempt : ℕ → List ℕ → Map (List ℕ) (List ℕ) → Map (List ℕ) (List ℕ)
note_attempt now key m = elim (find key m) [
  | none ↦ assign key (now ∷ []) m
  | some history ↦ assign key (history ++ now ∷ []) m
]

module _ (window now : ℕ) where
  -- Pop the attempts at the front that are at or before the cutoff.
  unfoldable pub prune_front : List ℕ → List ℕ
  prune_front [] = []
  prune_front (t ∷ ts) = let rest = prune_front ts in if leb (t + window) now then rest else t ∷ ts

  unfoldable pub prune_expired : Map (List ℕ) (List ℕ) → Map (List ℕ) (List ℕ)
  unfolding prune_front
  prune_expired [] = []
  prune_expired ((key, history) ∷ m) =
      let rest = prune_expired m in
      elim (prune_front history) [ [] ↦ rest | t ∷ ts ↦ (key, t ∷ ts) ∷ rest ]

  -- The table, and the history that is left under the key.
  unfoldable pub find_and_prune :
      Map (List ℕ) (List ℕ) → List ℕ → Map (List ℕ) (List ℕ) × Option (List ℕ)
  unfolding prune_front
  find_and_prune m key = elim (find key m) [
    | none ↦ (m, none)
    | some history ↦ elim (prune_front history) [
      | [] ↦ (erase key m, none)
      | t ∷ ts ↦ (assign key (t ∷ ts) m, some (t ∷ ts))
    ]
  ]

  -- Make room for a new key in a full table.
  unfoldable pub make_room : ℕ → Option (List ℕ) → Map (List ℕ) (List ℕ) → Map (List ℕ) (List ℕ)
  unfolding prune_expired
  make_room tracked entry m =
      if not (is_some entry) && leb tracked (size m) then prune_expired m else m

-- The part of `TryAcquire` behind the rate limits: the tables are pruned, and the keys may be new.
unfoldable pub admit : Limiter → ℕ → List ℕ → List ℕ → Bool → Bool → Limiter × LoginAdmissionStatus
unfolding note_attempt
admit l now ip account needs_ip needs_account =
    if (needs_ip && leb l.options.max_tracked_ips (size l.ip_attempts))
      || (needs_account && leb l.options.max_tracked_accounts (size l.account_attempts))
    then (
      record l {
        stats = record l.stats {
          rejected_by_tracking_capacity = inc64 l.stats.rejected_by_tracking_capacity;
        };
      },
      LoginAdmissionStatus.service_busy,
    )
    else if leb l.options.max_concurrent_password_jobs l.stats.concurrent_password_jobs
    then (
      record l {
        stats = record l.stats { rejected_by_concurrency = inc64 l.stats.rejected_by_concurrency };
      },
      LoginAdmissionStatus.service_busy,
    )
    else (
      record l {
        ip_attempts = note_attempt now ip l.ip_attempts;
        account_attempts = note_attempt now account l.account_attempts;
        stats = record l.stats {
          concurrent_password_jobs = inc64 l.stats.concurrent_password_jobs;
          accepted_attempts = inc64 l.stats.accepted_attempts;
        };
      },
      LoginAdmissionStatus.accepted,
    )

unfoldable pub try_acquire : Limiter → ℕ → List ℕ → List ℕ → Limiter × LoginAdmissionStatus
unfolding find_and_prune make_room admit normalize_account_login_id
try_acquire l now client_address account_login_id =
    let o = l.options in
    let ip = ip_key client_address in
    let account = normalize_account_login_id account_login_id in
    let by_ip = find_and_prune o.attempt_window now l.ip_attempts ip in
    let by_account = find_and_prune o.attempt_window now l.account_attempts account in
    if is_full o.max_attempts_per_ip by_ip.1
    then (
      record l {
        ip_attempts = by_ip.0;
        stats = record l.stats { rejected_by_ip = inc64 l.stats.rejected_by_ip };
      },
      LoginAdmissionStatus.rate_limited,
    )
    else if is_full o.max_attempts_per_account by_account.1
    then (
      record l {
        ip_attempts = by_ip.0;
        account_attempts = by_account.0;
        stats = record l.stats { rejected_by_account = inc64 l.stats.rejected_by_account };
      },
      LoginAdmissionStatus.rate_limited,
    )
    else let ips = make_room o.attempt_window now o.max_tracked_ips by_ip.1 by_ip.0 in
      let accounts =
        make_room o.attempt_window now o.max_tracked_accounts by_account.1 by_account.0 in
      admit (record l { ip_attempts = ips; account_attempts = accounts }) now ip account
        (not (contains ip ips)) (not (contains account accounts))

-- The end of a permit.
unfoldable pub release : Limiter → Limiter
release l =
    if ltb 0 l.stats.concurrent_password_jobs
    then record l {
      stats = record l.stats { concurrent_password_jobs = l.stats.concurrent_password_jobs - 1 };
    }
    else l

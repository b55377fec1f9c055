-- ===== src/Device/Options/Fixed.antt =====
-- FIX is for good: whatever SET OPTION is sent, accepted or refused.
use virtual_yubihsm.Prelude.{
  ℕ, ◌≡◌, refl, Bool, true, false, if◌then◌else◌, List, [], ◌∷◌, ◌==◌, ==_iff, arith,
}
use virtual_yubihsm.Prelude.OrderedMap.{OrderedMap, get, get-insert, nat_order}
use virtual_yubihsm.Error.{Result, ok, err, invalid_data, ◌>>=◌, >>=-eq-ok}
use virtual_yubihsm.Firmware.{FirmwareProfile}
use virtual_yubihsm.Device.Options.{
  DeviceOptions, set_option_value, is_fixed, option_fix, command_audit_pair, algorithm_toggle_pair,
  for_pairs, set_option, options_after, set_force_audit, set_fips_mode, set_command_audit,
  set_algorithm_toggle, one_value, pairs, require_fresh, option_force_audit, option_command_audit,
  option_algorithm_toggle, option_fips_mode,
}
use virtual_yubihsm.Wire.{decode}
use virtual_yubihsm.Request.{set_option_request}

-- A step on one pair keeps what is fixed.
abbrev KeepsFixed : (OrderedMap ℕ ℕ → ℕ → ℕ → Result (OrderedMap ℕ ℕ)) → Type 0
KeepsFixed step =
    (m : OrderedMap ℕ ℕ) (key value : ℕ) (next : OrderedMap ℕ ℕ)
    → step m key value ≡ ok next
    → (k : ℕ) → is_fixed (get k m) ≡ true
    → is_fixed (get k next) ≡ true

command_audit_pair-KeepsFixed :
    (profile : FirmwareProfile) → KeepsFixed (command_audit_pair profile)
unfolding command_audit_pair
command_audit_pair-KeepsFixed profile m key value next e k h =
    ground (arith, get-insert key k value m, ==_iff key k)

algorithm_toggle_pair-KeepsFixed :
    (profile : FirmwareProfile) (algorithms : List ℕ)
    → KeepsFixed (algorithm_toggle_pair profile algorithms)
unfolding algorithm_toggle_pair
algorithm_toggle_pair-KeepsFixed profile algorithms m key value next e k h =
    ground (arith, get-insert key k value m, ==_iff key k)

for_pairs-KeepsFixed :
    (step : OrderedMap ℕ ℕ → ℕ → ℕ → Result (OrderedMap ℕ ℕ))
    → KeepsFixed step
    → (values : List ℕ) (m next : OrderedMap ℕ ℕ) → for_pairs step m values ≡ ok next
    → (k : ℕ) → is_fixed (get k m) ≡ true
    → is_fixed (get k next) ≡ true
unfolding for_pairs
for_pairs-KeepsFixed step keep [] m next e k h = ground arith
for_pairs-KeepsFixed step keep (key ∷ []) m next e k h = ground arith
for_pairs-KeepsFixed step keep (key ∷ value ∷ values) m next e k h =
    let (between, first, rest) = >>=-eq-ok (step m key value) (λ b. for_pairs step b values) e in
    for_pairs-KeepsFixed step keep values between next rest k (keep m key value between first k h)

-- The four options that a request may change, at FIX.
pub record StaysFixed (before after : DeviceOptions) : Type 0 where
  pub force : (before.force_audit == option_fix) ≡ true → (after.force_audit == option_fix) ≡ true
  pub fips : (before.fips_mode == option_fix) ≡ true → (after.fips_mode == option_fix) ≡ true
  pub audit :
      (k : ℕ)
      → is_fixed (get k before.command_audit) ≡ true
      → is_fixed (get k after.command_audit) ≡ true
  pub toggle :
      (k : ℕ)
      → is_fixed (get k before.algorithm_toggle) ≡ true
      → is_fixed (get k after.algorithm_toggle) ≡ true

StaysFixed-refl : (o : DeviceOptions) → StaysFixed o o
StaysFixed-refl o = record { force = λ h. h; fips = λ h. h; audit = λ k h. h; toggle = λ k h. h }

set_option_value-fixed :
    (current requested updated : ℕ)
    → set_option_value current requested ≡ ok updated
    → (current == option_fix) ≡ true
    → (updated == option_fix) ≡ true
unfolding set_option_value
set_option_value-fixed current requested updated e h = ground arith

-- The shapes that a successful SET OPTION has.
data Change (profile : FirmwareProfile) (algorithms : List ℕ) (o : DeviceOptions)
    : DeviceOptions → Type 0 where
  to_force :
      (v u : ℕ)
      → set_option_value o.force_audit v ≡ ok u
      → Change profile algorithms o (record o { force_audit = u })
  to_fips :
      (v u : ℕ)
      → set_option_value o.fips_mode v ≡ ok u
      → Change profile algorithms o (record o { fips_mode = u })
  to_audit :
      (values : List ℕ) (m : OrderedMap ℕ ℕ)
      → for_pairs (command_audit_pair profile) o.command_audit values ≡ ok m
      → Change profile algorithms o (record o { command_audit = m })
  to_toggle :
      (values : List ℕ) (m : OrderedMap ℕ ℕ)
      → for_pairs (algorithm_toggle_pair profile algorithms) o.algorithm_toggle values ≡ ok m
      → Change profile algorithms o (record o { algorithm_toggle = m })

Change-StaysFixed :
    {profile : FirmwareProfile} {algorithms : List ℕ} {o updated : DeviceOptions}
    → Change profile algorithms o updated
    → StaysFixed o updated
Change-StaysFixed {o} (to_force v u e) = record {
  force = set_option_value-fixed o.force_audit v u e;
  fips = λ h. h;
  audit = λ k h. h;
  toggle = λ k h. h;
}
Change-StaysFixed {o} (to_fips v u e) = record {
  force = λ h. h;
  fips = set_option_value-fixed o.fips_mode v u e;
  audit = λ k h. h;
  toggle = λ k h. h;
}
Change-StaysFixed {profile} {algorithms} {o} (to_audit values m e) = record {
  force = λ h. h;
  fips = λ h. h;
  audit = for_pairs-KeepsFixed _ (command_audit_pair-KeepsFixed profile) values o.command_audit m e;
  toggle = λ k h. h;
}
Change-StaysFixed {profile} {algorithms} {o} (to_toggle values m e) = record {
  force = λ h. h;
  fips = λ h. h;
  audit = λ k h. h;
  toggle =
      for_pairs-KeepsFixed _ (algorithm_toggle_pair-KeepsFixed profile algorithms) values
        o.algorithm_toggle m e;
}

module _ {o : DeviceOptions} where
  -- A request that is refused on the way leaves the options as they were.
  after_bind :
      {A : Type 0} (m : Result A) (f : A → Result DeviceOptions)
      → ((a : A) → m ≡ ok a → StaysFixed o (options_after o (f a)))
      → StaysFixed o (options_after o (m >>= f))
  after_bind (ok a) f keep = keep a refl
  after_bind (err e) f keep = StaysFixed-refl o

  after_if :
      (test : Bool) (r s : Result DeviceOptions)
      → StaysFixed o (options_after o r)
      → StaysFixed o (options_after o s)
      → StaysFixed o (options_after o (if test then r else s))
  after_if true r s kr ks = kr
  after_if false r s kr ks = ks

module _ (profile : FirmwareProfile) (algorithms : List ℕ) (fresh : Bool) (o : DeviceOptions)
    (values : List ℕ) where
  set_force_audit-StaysFixed : StaysFixed o (options_after o (set_force_audit o values))
  unfolding set_force_audit
  set_force_audit-StaysFixed = after_bind (one_value values) _ λ v _.
      after_bind (set_option_value o.force_audit v) _
        λ u e. Change-StaysFixed {profile = profile} {algorithms = algorithms} (to_force v u e)

  set_fips_mode-StaysFixed : StaysFixed o (options_after o (set_fips_mode fresh o values))
  unfolding set_fips_mode
  set_fips_mode-StaysFixed = after_bind (require_fresh fresh) _ λ _ _.
      after_bind (one_value values) _ λ v _.
        after_bind (set_option_value o.fips_mode v) _
          λ u e. Change-StaysFixed {profile = profile} {algorithms = algorithms} (to_fips v u e)

  set_command_audit-StaysFixed : StaysFixed o (options_after o (set_command_audit profile o values))
  unfolding set_command_audit
  set_command_audit-StaysFixed = after_bind (pairs values) _ λ vs _.
      after_bind (for_pairs (command_audit_pair profile) o.command_audit vs) _
        λ m e. Change-StaysFixed {profile = profile} {algorithms = algorithms} (to_audit vs m e)

  set_algorithm_toggle-StaysFixed :
      StaysFixed o (options_after o (set_algorithm_toggle profile algorithms fresh o values))
  unfolding set_algorithm_toggle
  set_algorithm_toggle-StaysFixed = after_bind (require_fresh fresh) _ λ _ _.
      after_bind (pairs values) _ λ vs _.
        after_bind (for_pairs (algorithm_toggle_pair profile algorithms) o.algorithm_toggle vs) _
          λ m e. Change-StaysFixed {profile = profile} {algorithms = algorithms} (to_toggle vs m e)

-- Whatever SET OPTION is sent, and whether it is accepted or refused, each option that was FIX
-- before is FIX after: the two single options, and every command and algorithm of the two tables.
pub set_option-StaysFixed :
    (profile : FirmwareProfile) (algorithms : List ℕ) (fresh : Bool) (o : DeviceOptions)
    (request_data : List ℕ)
    → StaysFixed o (options_after o (set_option profile algorithms fresh o request_data))
unfolding set_option
set_option-StaysFixed profile algorithms fresh o request_data =
    after_bind (decode set_option_request request_data) _ λ request _.
      let values = request.values in
      let fips =
        if request.option == option_fips_mode
        then set_fips_mode fresh o values
        else err invalid_data in
      let toggle =
        if request.option == option_algorithm_toggle
        then set_algorithm_toggle profile algorithms fresh o values
        else fips in
      let audit =
        if request.option == option_command_audit
        then set_command_audit profile o values
        else toggle in
      after_if (request.option == option_force_audit) (set_force_audit o values) audit
        (set_force_audit-StaysFixed profile algorithms fresh o values)
        (after_if (request.option == option_command_audit) (set_command_audit profile o values)
          toggle (set_command_audit-StaysFixed profile algorithms fresh o values)
          (after_if (request.option == option_algorithm_toggle)
            (set_algorithm_toggle profile algorithms fresh o values) fips
            (set_algorithm_toggle-StaysFixed profile algorithms fresh o values)
            (after_if (request.option == option_fips_mode) (set_fips_mode fresh o values)
              (err invalid_data) (set_fips_mode-StaysFixed profile algorithms fresh o values)
              (StaysFixed-refl o))))

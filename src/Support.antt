-- ===== src/Support.antt =====
-- Support.h: checks of what a system call returned. The C library's errno and strerror are
-- arguments; no part of the program calls the checks.
use mini_wireshark.Base.{◌≡◌, ◌⊎◌, Bool, ◌&&◌, not, ◌++◌, if◌then◌else◌, arith, ℕ, ◌==◌}
use mini_wireshark.Qt.{QString, qs}

-- class Exception
pub record Exception : Type 0 where
  pub name : QString
  pub err_name : QString
  pub err_code : ℕ

-- A check throws, or prints a line and returns 0.
pub data Checked : Type 0 where
  throws : Exception → Checked
  returns : ℕ → QString → Checked

abbrev pub enoent : ℕ
enoent = 2

abbrev pub success : QString → Checked
success name = returns 0 (qs "success " ++ name)

module _ {T : Type 0} (eq : T → T → Bool) (strerror : ℕ → QString) (errno : ℕ) where
  abbrev pub failure : QString → Checked
  failure name = throws (record { name = name; err_name = strerror errno; err_code = errno })

  -- Both overloads, of a C string and of a std::string.
  unfoldable pub ck : QString → T → T → Checked
  ck name ret f_value = if eq ret f_value then failure name else success name

  unfoldable pub ck_enoent : QString → T → T → Checked
  ck_enoent name ret f_value =
      if eq ret f_value && not (errno == enoent) then failure name else success name

  unfoldable pub ck_r : QString → T → T → Checked
  ck_r name ret f_value = if not (eq ret f_value) then failure name else success name

  -- ck and ck_r throw in opposite cases: one throws, the other prints success and returns 0.
  pub ck-ck_r :
      (name : QString) (ret f_value : T)
      → ((ck name ret f_value ≡ failure name) × (ck_r name ret f_value ≡ success name))
        ⊎ ((ck name ret f_value ≡ success name) × (ck_r name ret f_value ≡ failure name))
  unfolding ck ck_r
  ck-ck_r name ret f_value = ground arith

  -- ck_ENOENT is ck but for a missing file.
  pub ck_enoent-ck :
      (name : QString) (ret f_value : T)
      → ck_enoent name ret f_value ≡ (if errno == enoent then success name else ck name ret f_value)
  unfolding ck ck_enoent
  ck_enoent-ck name ret f_value = ground arith

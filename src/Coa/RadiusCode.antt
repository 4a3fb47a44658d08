-- ===== src/Coa/RadiusCode.antt =====
-- services/auth/coa_manager.py, the enumeration `RadiusCode`: the codes of RADIUS packets.
use openradiusweb.Prelude.{ℕ, Bool, [], ◌∷◌, ◌==◌, any}

abbrev pub access_request : ℕ
access_request = 1

abbrev pub access_accept : ℕ
access_accept = 2

abbrev pub access_reject : ℕ
access_reject = 3

abbrev pub accounting_request : ℕ
accounting_request = 4

abbrev pub accounting_response : ℕ
accounting_response = 5

abbrev pub disconnect_request : ℕ
disconnect_request = 40

abbrev pub disconnect_ack : ℕ
disconnect_ack = 41

abbrev pub disconnect_nak : ℕ
disconnect_nak = 42

abbrev pub coa_request : ℕ
coa_request = 43

abbrev pub coa_ack : ℕ
coa_ack = 44

abbrev pub coa_nak : ℕ
coa_nak = 45

-- `RadiusCode(n)` raises `ValueError` unless `n` is one of these.
abbrev pub is_member : ℕ → Bool
is_member n =
    any (λ c. c == n)
      (access_request ∷ access_accept ∷ access_reject ∷ accounting_request ∷ accounting_response
        ∷ disconnect_request ∷ disconnect_ack ∷ disconnect_nak ∷ coa_request ∷ coa_ack ∷ coa_nak
        ∷ [])

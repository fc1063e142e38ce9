-- ===== src/Idt/Faults.antt =====
-- The explanation of a page fault in src/arch/x86_64/idt/idt.c and the bits of the error code.
use potatos.Base.{ℕ, zero, suc, ◌≤◌, ◌<◌, ◌≡◌, refl, not, none, some, arith, bit_clear}
use potatos.Idt.{page_fault_text}

-- The switch explains every error code of three bits by these bits: bit 2 says that a user process
-- faulted, bit 1 that it wrote, bit 0 that the page was present; it explains no other code.
pub page_fault_text_lem :
    (error_code : ℕ)
    → (error_code < 8
        → page_fault_text error_code
          ≡ some (record {
            user = not (bit_clear error_code 2);
            write = not (bit_clear error_code 1);
            protection = not (bit_clear error_code 0);
          }))
      × (8 ≤ error_code → page_fault_text error_code ≡ none)
unfolding page_fault_text
page_fault_text_lem zero = (λ h. refl, λ h. absurd (omega arith))
page_fault_text_lem (suc zero) = (λ h. refl, λ h. absurd (omega arith))
page_fault_text_lem (suc (suc zero)) = (λ h. refl, λ h. absurd (omega arith))
page_fault_text_lem (suc (suc (suc zero))) = (λ h. refl, λ h. absurd (omega arith))
page_fault_text_lem (suc (suc (suc (suc zero)))) = (λ h. refl, λ h. absurd (omega arith))
page_fault_text_lem (suc (suc (suc (suc (suc zero))))) = (λ h. refl, λ h. absurd (omega arith))
page_fault_text_lem (suc (suc (suc (suc (suc (suc zero)))))) =
    (λ h. refl, λ h. absurd (omega arith))
page_fault_text_lem (suc (suc (suc (suc (suc (suc (suc zero))))))) =
    (λ h. refl, λ h. absurd (omega arith))
page_fault_text_lem (suc (suc (suc (suc (suc (suc (suc (suc n)))))))) =
    (λ h. absurd (omega arith), λ h. ground arith)

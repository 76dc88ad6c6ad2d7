-- ===== src/Update/Refused.antt =====
-- firmware/src/main.cpp: what `applyOta` leaves behind when it does not answer `Applied`.
use presence_platform.Prelude.{ℕ, ◌≡◌, ◌⊎◌, false, Option, none, Bytes}
use presence_platform.Ota.Guard.{OtaGuard, Answers}
use presence_platform.Ota.Image.{Crypto}
use presence_platform.Update.{Sha256, Input, Partitions, flash_sector, OtaOffer, Updater}
use presence_platform.Update.Pending.{NotPending, StillPending}

-- What ESP-IDF documents: only a call of `esp_ota_set_boot_partition` that succeeds changes the
-- slot that the bootloader starts.
pub record IsBootKept (F : Partitions) : Type 0 where
  pub boot-ota_begin : (f : F.Flash) (s : F.Slot) (n : ℕ) → F.boot (F.ota_begin f s n).1 ≡ F.boot f
  pub boot-ota_write :
      (f : F.Flash) (h : F.Handle) (b : Bytes) → F.boot (F.ota_write f h b).1 ≡ F.boot f
  pub boot-ota_end : (f : F.Flash) (h : F.Handle) → F.boot (F.ota_end f h).1 ≡ F.boot f
  pub boot-ota_abort : (f : F.Flash) (h : F.Handle) → F.boot (F.ota_abort f h) ≡ F.boot f
  pub boot-erase_range :
      (f : F.Flash) (s : F.Slot) (o n : ℕ) → F.boot (F.erase_range f s o n) ≡ F.boot f
  pub boot-set_boot_failed :
      (f : F.Flash) (s : F.Slot) → (F.set_boot f s).0 ≡ false → F.boot (F.set_boot f s).1 ≡ F.boot f

module _ (C : Crypto) (H : Sha256) (F : Partitions) (I : Input) where
  -- What NVS holds of the update: nothing, unless the slot could not be made the one to start and
  -- the pending record could not be taken back either.
  abbrev pub Forgotten : Answers → Bytes → OtaGuard → OtaGuard → Type 0
  Forgotten a sha before after =
      NotPending before after
      ⊎ ((a.clear_ok ≡ false)
          × ((f : F.Flash) × (s : F.Slot) × ((F.set_boot f s).0 ≡ false))
          × StillPending sha after)

  -- The boot partition is the one from before, and the head of the slot is erased.
  pub record IsUndone (a : Answers) (sha : Bytes) (boot : Option F.Slot) (before : OtaGuard)
      (u : Updater F I) : Type 0 where
    pub boot_same : F.boot u.flash ≡ boot
    pub erased_slot : F.Slot
    pub erased_flash : F.Flash
    pub erased : u.flash ≡ F.erase_range erased_flash erased_slot 0 flash_sector
    pub forgotten : Forgotten a sha before u.guard

  -- What an update that is not applied may leave: the boot partition as it was; NVS without it; the
  -- flash untouched, or as a failed `esp_ota_begin` left it, or with an erased head.
  pub record IsHarmless (a : Answers) (offer : OtaOffer) (u after : Updater F I) : Type 0 where
    pub boot_same : F.boot after.flash ≡ F.boot u.flash
    pub forgotten : Forgotten a offer.sha256 u.guard after.guard
    pub slot_head :
        (after.flash ≡ u.flash)
        ⊎ ((slot : F.Slot) × ((F.ota_begin u.flash slot offer.size).0 ≡ none)
            × (after.flash ≡ (F.ota_begin u.flash slot offer.size).1))
        ⊎ ((slot : F.Slot) × (f : F.Flash) × (after.flash ≡ F.erase_range f slot 0 flash_sector))

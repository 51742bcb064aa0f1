-- ===== src/Examples/Laws.antt =====
-- The concrete libraries keep the laws that the theorems rest on.
use transfer_hook.Prelude.{
  ℕ, ◌^◌, ◌<◌, ◌≡◌, refl, inl, inr, ◌&&◌, List, ◌++◌, Bytes, bytes_eq, bytes_eq_iff, bytes_eq_self,
  bytes_eq_ne, Bool-cases, length, leb, arith, to_le_bytes, take-append, drop-append,
  length-to_le_bytes, from_le_bytes-to_le_bytes,
}
use transfer_hook.Solana.Error.{ok}
use transfer_hook.Solana.Account.{system_program_id, Pubkey, AccountInfo}
use transfer_hook.Solana.Exec.{World}
use transfer_hook.Solana.Sdk.{IsMade, IsAllocated, IsAssigned, RunsSystemProgram, IsCodec}
use transfer_hook.Program.Process.Dispatch.{IsApart}
use transfer_hook.Examples.Libraries.{runtime, spl}

runtime_creates :
    (from to owner : Pubkey) (lamports space : ℕ) (infos : List AccountInfo)
    (seeds : List (List Bytes)) (w : World)
    → (runtime.invoke_signed (runtime.create_account from to lamports space owner) infos seeds w).0
      ≡ ok tt
    → IsMade from to owner lamports space w
        (runtime.invoke_signed
          (runtime.create_account from to lamports space owner)
          infos
          seeds
          w).1
runtime_creates from to owner lamports space infos seeds w h =
    elim (Bool-cases
      (bytes_eq (w.accounts to).owner system_program_id && leb (w.accounts to).lamports 0)) [
        | inl e ↦ rw e (record {
          vacant = ground (arith, bytes_eq_iff (w.accounts to).owner system_program_id);
          made = rw (bytes_eq_self to);
          payer = λ ne. rw (bytes_eq_ne from to ne, bytes_eq_self from) (refl, refl);
          confined = record {
            others = λ k n m. rw (bytes_eq_ne k to m, bytes_eq_ne k from n);
            same_shared = refl;
            same_exclusive = refl;
          };
        })
        | inr e ↦ cc (rw e at h)
      ]

runtime_allocates :
    (key : Pubkey) (space : ℕ) (infos : List AccountInfo) (seeds : List (List Bytes)) (w : World)
    → (runtime.invoke_signed (runtime.allocate key space) infos seeds w).0 ≡ ok tt
    → IsAllocated key space w (runtime.invoke_signed (runtime.allocate key space) infos seeds w).1
runtime_allocates key space infos seeds w h =
    elim (Bool-cases (bytes_eq (w.accounts key).owner system_program_id)) [
      | inl e ↦ rw e (record {
        vacant = (bytes_eq_iff (w.accounts key).owner system_program_id).0 e;
        allocated = rw (bytes_eq_self key);
        confined = record {
          others = λ k n m. rw (bytes_eq_ne k key n);
          same_shared = refl;
          same_exclusive = refl;
        };
      })
      | inr e ↦ cc (rw e at h)
    ]

runtime_assigns :
    (key owner : Pubkey) (infos : List AccountInfo) (seeds : List (List Bytes)) (w : World)
    → (runtime.invoke_signed (runtime.assign key owner) infos seeds w).0 ≡ ok tt
    → IsAssigned key owner w (runtime.invoke_signed (runtime.assign key owner) infos seeds w).1
runtime_assigns key owner infos seeds w h = record {
  assigned = rw (bytes_eq_self key);
  confined = record {
    others = λ k n m. rw (bytes_eq_ne k key n);
    same_shared = refl;
    same_exclusive = refl;
  };
}

pub runtime-RunsSystemProgram : RunsSystemProgram runtime
runtime-RunsSystemProgram = record {
  create_account_lem = runtime_creates;
  allocate_lem = runtime_allocates;
  assign_lem = runtime_assigns;
}

spl_list :
    (metas : List ℕ)
    → length metas < 2 ^ 32
    → spl.list_view_unpack (to_le_bytes 4 (length metas) ++ spl.pod_slice_to_bytes metas) ≡ ok metas
spl_list metas h =
    rw
      (
        drop-append 4 (to_le_bytes 4 (length metas)) metas (length-to_le_bytes 4 (length metas)),
        take-append 4 (to_le_bytes 4 (length metas)) metas (length-to_le_bytes 4 (length metas)),
        from_le_bytes-to_le_bytes 4 (length metas) h,
      )
      (ground arith)

pub spl-IsCodec : IsCodec spl
spl-IsCodec = record {
  length-execute = refl;
  length-initialize = refl;
  length-update = refl;
  execute-ne-initialize = λ e. cc;
  execute-ne-update = λ e. cc;
  initialize-ne-update = λ e. cc;
  list_view_unpack-pod_slice_to_bytes = spl_list;
}

pub spl-IsApart : IsApart spl
spl-IsApart = record {
  execute_apart = omega arith;
  initialize_apart = omega arith;
  update_apart = omega arith;
}

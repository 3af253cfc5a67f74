-- ===== src/Sdk/Compile/Tests.antt =====
-- Compiling two concrete instructions.
use phygital_wallet.Common.{
  ℕ, ◌/◌, ◌%◌, ◌+◌, ◌==◌, ◌≡◌, ◌≢◌, ◌↔◌, refl, Bool, true, false, not, ◌||◌, ◌&&◌, none, some, List,
  [], ◌∷◌, map, eqb, if◌then◌else◌, arith, All,
}
use phygital_wallet.Errors.{ok}
use phygital_wallet.SignDecode.{expand_compact_instructions}
use phygital_wallet.Sdk.Compile.{
  Roles, KitInstruction, Compiled, compile_wallet_instructions, has, compile_one,
  get_or_insert_remaining_account, compile_accounts, downgrade_wallet_signer_role,
}
use phygital_wallet.Sdk.Compile.Table.{addresses}
use phygital_wallet.Sdk.Compile.Flags.{grants, IsDistinct}
use phygital_wallet.Sdk.Compile.Privileges.{IsLawful, uses_all, compile_privileges}
use phygital_wallet.Sdk.Compile.RoundTrip.{
  IsNamedAll, IsAllowed, plain, compile-expand, compile_iff,
}

-- Roles by two binary digits: 2 signs, 1 is writable.
abbrev role_of : Bool → Bool → ℕ
role_of signer writable = (if signer then 2 else 0) + (if writable then 1 else 0)

abbrev signs : ℕ → Bool
signs r = eqb ((r / 2) % 2) 1

abbrev writes : ℕ → Bool
writes r = eqb (r % 2) 1

abbrev pub kit : Roles
kit = record {
  readonly = 0;
  merge = λ r s. role_of (signs r || signs s) (writes r || writes s);
  is_signer = signs;
  is_writable = writes;
  to_non_signer = λ r. role_of false (writes r);
  to_signer = λ r. role_of true (writes r);
  to_writable = λ r. role_of (signs r) true;
}

signs-role_of : (s w : Bool) → signs (role_of s w) ≡ s
signs-role_of true true = refl
signs-role_of true false = refl
signs-role_of false true = refl
signs-role_of false false = refl

writes-role_of : (s w : Bool) → writes (role_of s w) ≡ w
writes-role_of true true = refl
writes-role_of true false = refl
writes-role_of false true = refl
writes-role_of false false = refl

kit-IsLawful : IsLawful kit
kit-IsLawful = record {
  readonly_signer = refl;
  readonly_writable = refl;
  merge_signer = λ r s. signs-role_of (signs r || signs s) (writes r || writes s);
  merge_writable = λ r s. writes-role_of (signs r || signs s) (writes r || writes s);
  non_signer_signer = λ r. signs-role_of false (writes r);
  non_signer_writable = λ r. writes-role_of false (writes r);
  writable_signer = λ r. signs-role_of (signs r) true;
  writable_writable = λ r. writes-role_of (signs r) true;
}

-- The wallet signs a transfer, and is only read by a second instruction.
abbrev transfer : KitInstruction
transfer = record {
  program_address = "system";
  accounts =
      some (record { address = "wallet"; role = 2 } ∷ record { address = "bob"; role = 1 } ∷ []);
  data_bytes = some (2 ∷ []);
}

abbrev ping : KitInstruction
ping = record {
  program_address = "system";
  accounts = some (record { address = "wallet"; role = 0 } ∷ []);
  data_bytes = none;
}

abbrev both : List KitInstruction
both = transfer ∷ ping ∷ []

abbrev compiled : Compiled
compiled = record {
  remaining_accounts =
      record { address = "system"; role = 0 }
      ∷ record { address = "wallet"; role = 1 }
      ∷ record { address = "bob"; role = 1 }
      ∷ [];
  compact_instructions =
      record { program_id_index = 0; account_indexes = 1 ∷ 2 ∷ []; data_bytes = 2 ∷ [] }
      ∷ record { program_id_index = 0; account_indexes = 1 ∷ []; data_bytes = [] }
      ∷ [];
}

compiles : compile_wallet_instructions "token-program" kit both "wallet" ≡ ok compiled
unfolding compile_wallet_instructions compile_one get_or_insert_remaining_account compile_accounts
    downgrade_wallet_signer_role
compiles = refl

named : All IsNamedAll both
named = ((λ e. cc, (λ e. cc, (λ e. cc, tt))), ((λ e. cc, (λ e. cc, tt)), tt))

compile-expand_example :
    expand_compact_instructions compiled.compact_instructions ("system" ∷ "wallet" ∷ "bob" ∷ [])
    ≡ ok (map plain both)
compile-expand_example =
    compile-expand "token-program" kit "wallet" both compiled compiles (omega arith) named

compile_iff_example :
    ((c : Compiled) × (compile_wallet_instructions "token-program" kit both "wallet" ≡ ok c))
    ↔ ((both ≢ []) × All (IsAllowed "token-program" kit "wallet") both)
compile_iff_example = compile_iff "token-program" kit "wallet" both

compile_privileges_example :
    IsDistinct ("system" ∷ "wallet" ∷ "bob" ∷ [])
    × (has ("system" ∷ "wallet" ∷ "bob" ∷ []) "wallet"
        ≡ has (addresses (uses_all kit both)) "wallet")
    × (grants signs "wallet" compiled.remaining_accounts
        ≡ (not ("wallet" == "wallet") && grants signs "wallet" (uses_all kit both)))
    × (grants writes "wallet" compiled.remaining_accounts ≡ (
        grants writes "wallet" (uses_all kit both)
        || ("wallet" == "wallet" && has (addresses (uses_all kit both)) "wallet")))
compile_privileges_example =
    compile_privileges "token-program" kit kit-IsLawful "wallet" both compiled "wallet" compiles

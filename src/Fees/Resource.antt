-- ===== src/Fees/Resource.antt =====
-- `compute_transaction_resource_fee` of soroban-env-host/src/fees.rs.
pub mod Bounds
use rs_soroban_env.Prelude.{ℕ}
use rs_soroban_env.Prelude.Int.{ℤ, pos}
use rs_soroban_env.Prelude.Words.{saturating_add_u32}
use rs_soroban_env.Prelude.Signed.{NumInteger, saturating_add, saturating_mul, max_ℤ}

abbrev pub tx_base_result_size : ℕ
tx_base_result_size = 300

abbrev pub instructions_increment : ℤ
instructions_increment = pos 10000

abbrev pub data_size_1kb_increment : ℤ
data_size_1kb_increment = pos 1024

pub record TransactionResources : Type 0 where
  pub instructions : ℕ
  pub disk_read_entries : ℕ
  pub write_entries : ℕ
  pub disk_read_bytes : ℕ
  pub write_bytes : ℕ
  pub contract_events_size_bytes : ℕ
  pub transaction_size_bytes : ℕ

pub record FeeConfiguration : Type 0 where
  pub fee_per_instruction_increment : ℤ
  pub fee_per_disk_read_entry : ℤ
  pub fee_per_write_entry : ℤ
  pub fee_per_disk_read_1kb : ℤ
  pub fee_per_write_1kb : ℤ
  pub fee_per_historical_1kb : ℤ
  pub fee_per_contract_event_1kb : ℤ
  pub fee_per_transaction_size_1kb : ℤ

module _ (num : NumInteger) where
  unfoldable pub compute_fee_per_increment : ℕ → ℤ → ℤ → ℤ
  compute_fee_per_increment resource_value fee_rate increment =
      num.div_ceil (saturating_mul (pos resource_value) fee_rate) (max_ℤ increment (pos 1))

  -- The non-refundable fee and the refundable one.
  unfoldable pub compute_transaction_resource_fee : TransactionResources → FeeConfiguration → ℤ × ℤ
  unfolding saturating_add_u32
  compute_transaction_resource_fee tx_resources fee_config =
      let compute_fee =
        compute_fee_per_increment tx_resources.instructions fee_config.fee_per_instruction_increment
          instructions_increment in
      let ledger_read_entry_fee =
        saturating_mul fee_config.fee_per_disk_read_entry (pos tx_resources.disk_read_entries) in
      let ledger_write_entry_fee =
        saturating_mul fee_config.fee_per_write_entry (pos tx_resources.write_entries) in
      let ledger_read_bytes_fee =
        compute_fee_per_increment tx_resources.disk_read_bytes fee_config.fee_per_disk_read_1kb
          data_size_1kb_increment in
      let ledger_write_bytes_fee =
        compute_fee_per_increment tx_resources.write_bytes fee_config.fee_per_write_1kb
          data_size_1kb_increment in
      let historical_fee =
        compute_fee_per_increment
          (saturating_add_u32 tx_resources.transaction_size_bytes tx_base_result_size)
          fee_config.fee_per_historical_1kb data_size_1kb_increment in
      let events_fee =
        compute_fee_per_increment tx_resources.contract_events_size_bytes
          fee_config.fee_per_contract_event_1kb data_size_1kb_increment in
      let bandwidth_fee =
        compute_fee_per_increment tx_resources.transaction_size_bytes
          fee_config.fee_per_transaction_size_1kb data_size_1kb_increment in
      let non_refundable_fee =
        saturating_add
          (saturating_add
            (saturating_add
              (saturating_add
                (saturating_add (saturating_add compute_fee ledger_read_entry_fee)
                  ledger_write_entry_fee)
                ledger_read_bytes_fee)
              ledger_write_bytes_fee)
            historical_fee)
          bandwidth_fee in
      (non_refundable_fee, events_fee)

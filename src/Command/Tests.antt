-- ===== src/Command/Tests.antt =====
-- Tests and instances for the command builders.
use vroom.Common.{◌≡◌, refl, arith}
use vroom.Command.{io_read, io_write}
use vroom.Command.Fields.{Transfers, io-Transfers}

io_read_dwords : (io_read 3 1 0x1_0000_0002 7 4096 0).cdw11 ≡ 1
unfolding io_read
io_read_dwords = refl

io-Transfers_example :
    Transfers (io_read 7 1 0x1_0000_0002 15 4096 8192) 2 7 1 0x1_0000_0002 16 4096 8192
    × Transfers (io_write 7 1 0x1_0000_0002 15 4096 8192) 1 7 1 0x1_0000_0002 16 4096 8192
    × (io_write 7 1 0x1_0000_0002 15 4096 8192
        ≡ record (io_read 7 1 0x1_0000_0002 15 4096 8192) { opcode = 1 })
io-Transfers_example = io-Transfers 7 1 0x1_0000_0002 15 4096 8192 (omega arith) (omega arith)

-- ===== src/Userapp/Desc/Full.antt =====
-- When a descriptor is accepted.
use ledfw_lib.Common.{◌/◌, ◌%◌, ◌^◌, ◌≡◌, ◌≢◌, ◌↔◌, arith, bit_and, success, unreachable}
use ledfw_lib.Userapp.Desc.{
  Words, DescTbl, magic_number, version, architecture, fill_tbl, full_desc,
}

-- `full_desc` succeeds exactly on descriptors with the magic number, a version 1.x and the supported
-- architecture; it never gets to its `unreachable()`; where it succeeds the table holds the words of the
-- descriptor.
pub full_desc_lem :
    (buffer : Words) (tbl : DescTbl)
    → let (ret, t) = full_desc buffer tbl in
      ((ret ≡ success) ↔ (
        (buffer 0 ≡ 0x00041198)
        × (buffer 1 / 2 ^ 16 ≡ 1)
        × (buffer 7 % 2 ^ 16 ≡ 4)
        × (bit_and (buffer 7 / 2 ^ 16 % 2 ^ 16) 0xfffe ≡ 0)))
      × (ret ≢ unreachable)
      × (ret ≡ success
          → t ≡ record {
            magic = buffer 0;
            version = buffer 1;
            init = buffer 2;
            refresh = buffer 3;
            provider_name = buffer 5;
            app_name = buffer 4;
            app_id = buffer 6;
          })
unfolding full_desc magic_number version architecture fill_tbl
full_desc_lem buffer tbl = ground arith

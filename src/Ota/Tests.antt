-- ===== src/Ota/Tests.antt =====
-- A firmware image and a block, on concrete bytes.
use edu_glasses_host.Base.{ℕ, ◌≡◌, false, ok, refl, [], ◌∷◌, concat, map, arith}
use edu_glasses_host.Base.Bytes.{Bytes, le}
use edu_glasses_host.Base.{◌++◌}
use edu_glasses_host.Base.{All}
use edu_glasses_host.Ota.Upgrade.{timed_out, answered, transfer}
use edu_glasses_host.Ota.Upgrade.Slices.{IsSlice, transfer-IsSlice}
use edu_glasses_host.Ota.Packet.{Packet}
use edu_glasses_host.Ota.Reply.{OtaDeviceInfo, BlockResponse, UpdateResult, parse_ota_info}
use edu_glasses_host.Ota.Reply.RoundTrip.{info_bytes, parse_ota_info-info_bytes}
use edu_glasses_host.Ota.Image.{FirmwareImage, parse_image, parse_modules}
use edu_glasses_host.Ota.Image.Bounds.{IsSound, parse_image-IsSound}
use edu_glasses_host.Ota.Client.{SentBlock, next_sn, send_data_block, is_response}
use edu_glasses_host.Ota.Client.Block.{
  content_of, InOrder, send_data_block-InOrder, is_response-wrapped,
}

-- A checksum to try it with.
abbrev no_crc : Bytes → ℕ
no_crc input = 0

abbrev file : Bytes
file =
    0 ∷ 0 ∷ 0 ∷ 0 ∷ 0 ∷ 0 ∷ 0 ∷ 0 ∷ 0 ∷ 0 ∷ 0 ∷ 0 ∷ 0 ∷ 0 ∷ 0 ∷ 0 ∷ 72 ∷ 0 ∷ 0 ∷ 0 ∷ 1 ∷ 0 ∷ 0 ∷ 0
    ∷ 0 ∷ 0 ∷ 0 ∷ 0 ∷ 0 ∷ 0 ∷ 0 ∷ 0 ∷ 1 ∷ 64 ∷ 0 ∷ 0 ∷ 0 ∷ 8 ∷ 0 ∷ 0 ∷ 0 ∷ 0 ∷ 0 ∷ 0 ∷ 0 ∷ 0 ∷ 0 ∷ 0
    ∷ 0 ∷ 0 ∷ 0 ∷ 0 ∷ 0 ∷ 0 ∷ 0 ∷ 0 ∷ 0 ∷ 0 ∷ 0 ∷ 0 ∷ 0 ∷ 0 ∷ 0 ∷ 0 ∷ 0 ∷ 0 ∷ 0 ∷ 0 ∷ 0 ∷ 0 ∷ 0 ∷ 0
    ∷ []

abbrev image : FirmwareImage
image = record {
  product_id = 0;
  version = 0;
  file_len = 72;
  modules = record { module_type = 1; start_offset = 64; size = 8; version = 0; crc = 0 } ∷ [];
  content_crc = 0;
  header_crc = 0;
  header_info = file;
  content = file;
}

parse_image-IsSound_example : IsSound no_crc image
unfolding parse_image parse_modules le
parse_image-IsSound_example = parse_image-IsSound no_crc file image refl

send_data_block-InOrder_example :
    (block : SentBlock) × (send_data_block 2 7 100 (1 ∷ 2 ∷ 3 ∷ []) ≡ ok block)
    × (concat (map content_of block.written) ≡ 1 ∷ 2 ∷ 3 ∷ [])
    × InOrder 2 (next_sn 7) 100 block.written
send_data_block-InOrder_example =
    send_data_block-InOrder 2 7 100 (1 ∷ 2 ∷ 3 ∷ []) (omega arith) (omega arith)

-- A response with the number of the first packet.
abbrev response : Packet
response = record { opcode = 0x04; payload = 255 ∷ 255 ∷ 0 ∷ [] }

is_response-wrapped_example :
    (block : SentBlock) × (send_data_block 2 65534 100 (1 ∷ 2 ∷ 3 ∷ []) ≡ ok block)
    × (block.first_sn ≡ 65535)
    × (block.last_sn ≡ 1)
    × (is_response block response ≡ false)
is_response-wrapped_example =
    is_response-wrapped 2 100 (1 ∷ 2 ∷ 3 ∷ []) response (omega arith) (omega arith) (omega arith)

abbrev info : OtaDeviceInfo
info = record {
  sn = 3;
  hw_version = 1;
  fw_version = 2;
  battery = 80;
  modules = record { module_type = 1; version = 7 } ∷ [];
}

parse_ota_info-info_bytes_example : parse_ota_info (info_bytes info ++ (9 ∷ [])) ≡ ok info
parse_ota_info-info_bytes_example = parse_ota_info-info_bytes info (9 ∷ []) (record {
  sn_fits = omega arith;
  hw_fits = omega arith;
  fw_fits = omega arith;
  modules_fit = (omega arith, tt);
})

abbrev block_reply : BlockResponse
block_reply = record { sn = 3; result = 0; offset = 4096; size = 512 }

abbrev update_reply : UpdateResult
update_reply = record { sn = 4; result = 0; offset = 0; size = 0; reboot = 1 }

-- The device asks for two bytes, lets the first attempt time out, and then asks for no more.
transfer-IsSlice_example :
    All
      (IsSlice (5 ∷ 6 ∷ 7 ∷ []) 3)
      (transfer
        (5 ∷ 6 ∷ 7 ∷ [])
        3
        3
        3
        (record { sn = 1; result = 0; offset = 1; size = 2 })
        (timed_out ∷ answered (record { sn = 2; result = 0; offset = 0; size = 0 }) ∷ [])).0
transfer-IsSlice_example =
    transfer-IsSlice (5 ∷ 6 ∷ 7 ∷ []) 3 3 3 (record { sn = 1; result = 0; offset = 1; size = 2 })
      (timed_out ∷ answered (record { sn = 2; result = 0; offset = 0; size = 0 }) ∷ [])

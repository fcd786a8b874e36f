-- ===== src/VirtioBlk.antt =====
-- Requests of the block device driver: virtio_blk.c. What the device does between two looks at the
-- used ring is a parameter, as are the addresses of the request's header and status byte. Setting
-- the device up and ringing its bell are register I/O and are left out.
pub mod Serving
mod Tests
use archarch.Base.{
  ℕ, zero, suc, ◌+◌, ◌*◌, ◌≡◌, Bool, true, false, ◌==◌, if◌then◌else◌, List, [], ◌∷◌, upd, ℤ, pos,
  minus_one,
}
use archarch.Base.Word.{mul32}
use archarch.Memory.{Memory, store32, store64}
use archarch.Virtqueue.{
  VqBuf, Virtqueue, Used, nothing, got, endless, no_desc, virtqueue_add_chain, virtqueue_get_used,
}

-- The queue of the device, and memory.
pub record Blk : Type 0 where
  pub vq : Virtqueue
  pub mem : Memory

-- How a request ends; `hung` is a walk along a broken chain that does not end.
pub data Requested : Type 0 where
  ended : ℤ → Blk → Requested
  hung : Requested

abbrev pub virtio_blk_t_in : ℕ
virtio_blk_t_in = 0

abbrev pub virtio_blk_t_out : ℕ
virtio_blk_t_out = 1

abbrev pub virtio_blk_s_ok : ℕ
virtio_blk_s_ok = 0

-- How often the used ring is looked at.
abbrev pub timeout : ℕ
timeout = 50000000

-- `sizeof(blk_req_hdr)`
abbrev pub header_len : ℕ
header_len = 16

module _ (blk_req_hdr blk_status : ℕ) where
  unfoldable pub put_header : (type sector : ℕ) → Memory → Memory
  put_header type sector m =
      upd
        (store64 (blk_req_hdr + 8) sector
          (store32 (blk_req_hdr + 4) 0 (store32 blk_req_hdr type m)))
        blk_status 0xFF

  -- VRING_DESC_F_WRITE is 2.
  unfoldable pub request_chain : (type buf len : ℕ) → List VqBuf
  request_chain type buf len =
      record { addr = blk_req_hdr; len = header_len; flags = 0 }
      ∷ record { addr = buf; len = len; flags = if type == virtio_blk_t_in then 2 else 0 }
      ∷ record { addr = blk_status; len = 1; flags = 2 }
      ∷ []

  -- What follows the loop.
  unfoldable pub finish_request : Blk → Requested
  finish_request s = ended (if s.mem blk_status == virtio_blk_s_ok then pos 0 else minus_one) s

  unfoldable pub after_look : Used → Blk → Requested → Requested
  after_look nothing s rest = rest
  after_look (got idx len vq) s rest = finish_request (record s { vq = vq })
  after_look endless s rest = hung

  module _ (device : Blk → Blk) where
    -- The loop, with `n` looks left.
    unfoldable pub poll : ℕ → Blk → Requested
    poll zero s = ended minus_one s
    poll (suc n) s = let s' = device s in after_look (virtqueue_get_used s'.vq) s' (poll n s')

    unfoldable pub blk_do_request : (type sector buf len : ℕ) → Blk → Requested
    blk_do_request type sector buf len s =
        let r = virtqueue_add_chain (request_chain type buf len) s.vq in
        let m = put_header type sector s.mem in
        if r.0 == no_desc
        then ended minus_one (record s { mem = m })
        else poll timeout (record { vq = r.1; mem = m })

    unfoldable pub virtio_blk_read : (sector count buf : ℕ) → Blk → Requested
    virtio_blk_read sector count buf = blk_do_request virtio_blk_t_in sector buf (mul32 count 512)

    unfoldable pub virtio_blk_write : (sector count buf : ℕ) → Blk → Requested
    virtio_blk_write sector count buf = blk_do_request virtio_blk_t_out sector buf (mul32 count 512)

-- ===== src/Devices/Pic.antt =====
-- arch/i386/pic.c: the two interrupt controllers.
pub mod Chip
use verve_os.Base.{ℕ, ◌-◌, ◌<<<◌, ◌∷◌, leb, ltb, if◌then◌else◌, u8, not32, bit_and}
use verve_os.Devices.{Log, Answers, in_byte, outb}

abbrev pub pic1_cmd : ℕ
pic1_cmd = 0x20

abbrev pub pic1_data : ℕ
pic1_data = 0x21

abbrev pub pic2_cmd : ℕ
pic2_cmd = 0xa0

abbrev pub pic2_data : ℕ
pic2_data = 0xa1

unfoldable pub pic_wait : Log → Log
pic_wait log = in_byte pic1_cmd ∷ log

unfoldable pub pic_irq_mask_all : Log → Log
pic_irq_mask_all log = outb pic2_data 0xff (outb pic1_data 0xff log)

unfoldable pub pic_init : ℕ → ℕ → Log → Log
pic_init master_vector_base slave_vector_base log =
    let log = pic_wait (outb pic1_cmd 0x11 log) in
    let log = pic_wait (outb pic2_cmd 0x11 log) in
    let log = pic_wait (outb pic1_data master_vector_base log) in
    let log = pic_wait (outb pic2_data slave_vector_base log) in
    let log = pic_wait (outb pic1_data 4 log) in
    let log = pic_wait (outb pic2_data 2 log) in
    let log = pic_wait (outb pic1_data 1 log) in
    let log = pic_wait (outb pic2_data 1 log) in outb pic2_data 0xff (outb pic1_data 0xff log)

unfoldable pub pic_irq_unmask : Answers → ℕ → Log → Log
pic_irq_unmask dev irq_line log =
    let port = if ltb irq_line 8 then pic1_data else pic2_data in
    let shift = if ltb irq_line 8 then u8 irq_line else u8 (irq_line - 8) in
    let val = dev.port log port in
    outb port (u8 (bit_and val (u8 (not32 (1 <<< shift))))) (in_byte port ∷ log)

unfoldable pub pic_send_eoi : ℕ → Log → Log
pic_send_eoi irq_line log =
    outb pic1_cmd 0x20 (if leb 8 irq_line then outb pic2_cmd 0x20 log else log)
